-- ===== src/Operation/Prepare/Wire.antt =====
-- operation.go with transport_raw.go and internal/h1: the request that a prepared operation makes on the
-- wire.
use mathlib.Core.Path.{subst}
use repost_go.Http1.Writing.{given, valid_request, valid_wire_value}
use repost_go.Http1.{Request, max_target_bytes}
use repost_go.Operation.Keys.{
  printable, valid_idempotency_key, valid_user_agent_suffix, valid_credential, attempt_headers,
  operation_user_agent, version,
}
use repost_go.Operation.Prepare.Outcomes.{Credential, IsReady, ready-IsReady}
use repost_go.Operation.Prepare.{Preparation, ready, Ready, prepare}
use repost_go.Prelude.{
  ℕ, ◌≤◌, ◌≡◌, refl, sym, ap, ◌∙◌, ◌⊎◌, inl, inr, Bool, true, false, not, ◌&&◌, ◌||◌, some, [], ◌∷◌,
  ◌++◌, Bytes, length, ◌==◌, if_P, arith,
}
use repost_go.Response.Headers.{max_payload_bytes}
use repost_go.Text.{all_bytes, codes, has_byte, has_prefix}
use repost_go.Transport.Requests.{Endpoint, make_h1_request}

both : (a b : Bool) → (a && b) ≡ true → (a ≡ true) × (b ≡ true)
both a b h = (ground (arith, h), ground (arith, h))

neither : (a b : Bool) → a ≡ false → b ≡ false → (a || b) ≡ false
neither a b h k = ground (arith, h, k)

other : (b c : ℕ) → printable b ≡ false → printable c ≡ true → (c == b) ≡ false
other b c n h = ground (arith, n, h)

-- A byte that is not printable is not in a printable text.
has_byte-printable :
    (b : ℕ) (s : Bytes) → printable b ≡ false → all_bytes printable s ≡ true → has_byte b s ≡ false
unfolding all_bytes has_byte
has_byte-printable b [] n h = refl
has_byte-printable b (c ∷ cs) n h =
    let (here, there) = both (printable c) (all_bytes printable cs) h in
    neither (c == b) (has_byte b cs) (other b c n here) (has_byte-printable b cs n there)

three : (a b c : Bool) → a ≡ false → b ≡ false → c ≡ false → not (a || b || c) ≡ true
three a b c h k l = ground (arith, h, k, l)

valid_wire_value-printable : (s : Bytes) → all_bytes printable s ≡ true → valid_wire_value s ≡ true
unfolding valid_wire_value
valid_wire_value-printable s h =
    three _ _ _ (has_byte-printable 13 s refl h) (has_byte-printable 10 s refl h)
      (has_byte-printable 0 s refl h)

all_bytes-append :
    (p : ℕ → Bool) (s t : Bytes)
    → all_bytes p s ≡ true
    → all_bytes p t ≡ true
    → all_bytes p (s ++ t) ≡ true
unfolding all_bytes
all_bytes-append p [] t h k = k
all_bytes-append p (c ∷ cs) t h k = ground (arith, h, all_bytes-append p cs t, k)

make_h1_request-attempt :
    (endpoint : Endpoint) (api_key agent key body : Bytes)
    → make_h1_request endpoint (attempt_headers api_key agent key) body
      ≡ some (record {
        target = endpoint.target;
        authority = endpoint.authority;
        authorization = codes "Bearer " ++ api_key;
        user_agent = agent;
        idempotency_key = key;
        traceparent = [];
        tracestate = [];
        body = body;
      })
unfolding make_h1_request attempt_headers
make_h1_request-attempt endpoint api_key agent key body = refl

-- What `canonicalEndpoint` makes of the two parts of an endpoint.
pub record IsServed (endpoint : Endpoint) : Type 0 where
  pub target : Bytes
  pub target_parts : (endpoint.target ≡ b'/' ∷ target) × (length endpoint.target ≤ max_target_bytes)
  pub target_text : all_bytes printable endpoint.target ≡ true
  pub authority : 1 ≤ length endpoint.authority
  pub authority_text : all_bytes printable endpoint.authority ≡ true

-- What `resolveConfig` leaves of the fixed key and of the suffix, `[]` where they are not there.
pub record IsResolved (p : Preparation) : Type 0 where
  pub api_key : (p.api_key ≡ []) ⊎ (valid_credential p.api_key ≡ true)
  pub suffix : (p.user_agent_suffix ≡ []) ⊎ (valid_user_agent_suffix p.user_agent_suffix ≡ true)

-- A text with something in it, of printable bytes.
record IsText (s : Bytes) : Type 0 where
  some_byte : given s ≡ true
  wire : valid_wire_value s ≡ true

text : (s : Bytes) → given s ≡ true → all_bytes printable s ≡ true → IsText s
text s g h = record { some_byte = g; wire = valid_wire_value-printable s h }

valid_credential-printable : (s : Bytes) → valid_credential s ≡ true → all_bytes printable s ≡ true
unfolding valid_credential
valid_credential-printable s h = ground (arith, h)

valid_idempotency_key-IsText : (s : Bytes) → valid_idempotency_key s ≡ true → IsText s
unfolding valid_idempotency_key
valid_idempotency_key-IsText s h = text s (ground (arith, h)) (ground (arith, h))

given-append : (s t : Bytes) → given s ≡ true → given (s ++ t) ≡ true
given-append [] t h = absurd (ground (arith, h))
given-append (c ∷ cs) t h = ground arith

operation_user_agent-IsText :
    (suffix : Bytes)
    → (suffix ≡ []) ⊎ (valid_user_agent_suffix suffix ≡ true)
    → IsText (operation_user_agent suffix)
unfolding operation_user_agent valid_user_agent_suffix
operation_user_agent-IsText suffix (inl e) =
    subst (λ s. IsText (operation_user_agent s)) (sym e) (text (operation_user_agent []) refl refl)
operation_user_agent-IsText suffix (inr h) =
    if_P IsText (length suffix == 0) _ _ (λ _. text _ refl refl)
      λ _. text _ (given-append (codes "repost-client-go/" ++ version ++ codes " ") suffix refl) (
        all_bytes-append printable (codes "repost-client-go/" ++ version ++ codes " ") suffix refl
          (ground (arith, h)))

has_prefix-slash : (s t : Bytes) → s ≡ b'/' ∷ t → has_prefix s (b'/' ∷ []) ≡ true
unfolding has_prefix
has_prefix-slash s t e = ap (λ u. has_prefix u (b'/' ∷ [])) e

valid_request-texts :
    (endpoint : Endpoint) (authorization agent key body : Bytes)
    → IsServed endpoint
    → IsText authorization
    → IsText agent
    → IsText key
    → length body ≤ max_payload_bytes
    → valid_request (record {
      target = endpoint.target;
      authority = endpoint.authority;
      authorization = authorization;
      user_agent = agent;
      idempotency_key = key;
      traceparent = [];
      tracestate = [];
      body = body;
    })
      ≡ true
unfolding valid_request all_bytes
valid_request-texts endpoint authorization agent key body e a u k b =
    let empty : valid_wire_value [] ≡ true = valid_wire_value-printable [] refl in
    let target : valid_wire_value endpoint.target ≡ true =
      valid_wire_value-printable endpoint.target e.target_text in
    let authority : valid_wire_value endpoint.authority ≡ true =
      valid_wire_value-printable endpoint.authority e.authority_text in
    let slash : has_prefix endpoint.target (b'/' ∷ []) ≡ true =
      has_prefix-slash endpoint.target e.target e.target_parts.0 in
    ground (
      arith, empty, target, authority, slash, e.target_parts.0, e.target_parts.1, e.authority,
      a.some_byte, a.wire, u.some_byte, u.wire, k.some_byte, k.wire, b,
    )

given-positive : (s : Bytes) → 1 ≤ length s → given s ≡ true
given-positive s h = ground (arith, h)

bearer-IsText :
    (api_key : Bytes) → valid_credential api_key ≡ true → IsText (codes "Bearer " ++ api_key)
unfolding all_bytes
bearer-IsText api_key h = text _ (given-append (codes "Bearer ") api_key refl) (
    all_bytes-append printable (codes "Bearer ") api_key refl
      (valid_credential-printable api_key h))

Credential-valid :
    (p : Preparation) (key : Bytes) → IsResolved p → Credential p key → valid_credential key ≡ true
unfolding Credential
Credential-valid p key i (inl v) = v
Credential-valid p key i (inr (e, n)) = elim i.api_key [
  | inl q ↦ absurd (omega (arith, ap length e, ap length q, n))
  | inr v ↦ subst (λ k. valid_credential k ≡ true) (sym e) v
]

-- A request of the transport that the writer of HTTP/1.1 accepts.
pub record Accepted (endpoint : Endpoint) (r : Ready) : Type 0 where
  pub request : Request
  pub made : make_h1_request endpoint r.headers r.body ≡ some request
  pub valid : valid_request request ≡ true
  pub key : request.idempotency_key ≡ r.idempotency_key
  pub body : request.body ≡ r.body
  pub shrunk : r.request_bytes ≡ length request.body

-- A preparation under a resolved configuration that succeeds makes headers and a body from which the
-- transport, at a served endpoint, makes a request that the writer of HTTP/1.1 accepts, with the
-- idempotency key and the body of the preparation, and the permit shrinks to the length of that body.
pub ready-Accepted :
    (endpoint : Endpoint) (p : Preparation) (r : Ready)
    → IsServed endpoint
    → IsResolved p
    → prepare p ≡ ready r
    → Accepted endpoint r
ready-Accepted endpoint p r e i h =
    let d : IsReady p r = ready-IsReady p r h in
    let agent : Bytes = operation_user_agent p.user_agent_suffix in
    record {
      request = record {
        target = endpoint.target;
        authority = endpoint.authority;
        authorization = codes "Bearer " ++ d.api_key;
        user_agent = agent;
        idempotency_key = r.idempotency_key;
        traceparent = [];
        tracestate = [];
        body = r.body;
      };
      made =
          ap (λ hs. make_h1_request endpoint hs r.body) d.headers
          ∙ make_h1_request-attempt endpoint d.api_key agent r.idempotency_key r.body;
      valid =
          valid_request-texts endpoint (codes "Bearer " ++ d.api_key) agent r.idempotency_key r.body
            e (bearer-IsText d.api_key (Credential-valid p d.api_key i d.credential))
            (operation_user_agent-IsText p.user_agent_suffix i.suffix)
            (valid_idempotency_key-IsText r.idempotency_key d.key) d.body;
      key = refl;
      body = refl;
      shrunk = d.shrunk;
    }
