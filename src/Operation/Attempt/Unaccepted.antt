-- ===== src/Operation/Attempt/Unaccepted.antt =====
-- operation.go: what an error that rules out an acceptance says of the reports of the attempts made.
use repost_go.Errors.{ErrorCode, Error}
use repost_go.Operation.Attempt.Commitment.{NoneAccepted, unsent-NoneAccepted}
use repost_go.Operation.Attempt.Honest.{IsUnsent}
use repost_go.Operation.Attempt.Turns.{timed_out-committed}
use repost_go.Operation.Attempt.{
  AttemptReport, Surroundings, Action, sends, closes, counts_header_limit, pauses, failed,
  send_attempts, attempt_committed, snapshot_response, timed_out,
}
use repost_go.Operation.Backoff.{RetryConfig}
use repost_go.Operation.{Call, response_may_have_been_accepted, pre_commit_failure}
use repost_go.Prelude.Int.{ℤ, pos, ◌≤ℤ◌, ◌<ℤ◌}
use repost_go.Prelude.{
  ℕ, ◌≡◌, refl, ap, sym, ◌∙◌, ◌⊎◌, inl, inr, Bool, true, false, not, ◌&&◌, ◌||◌, Option, none, some,
  List, [], ◌∷◌, All, arith, if◌then◌else◌, if_P, Option_P,
}
use repost_go.Response.Headers.{
  Encoding, snapshot_attempt_response, snapshot_headers, snapshot_limits,
  mark_response_header_violation, validate_response_headers, response_headers_exceed_limit,
  response_exceeds_limits, response_content_encoding,
}
use repost_go.Response.Validate.{Sent}
use repost_go.Response.{AttemptResponse, AttemptFailure, AttemptOutcome, or_empty}

-- The attempt failed before a connection to the service was ready.
abbrev pub IsBeforeRequest : ErrorCode → Type 0
IsBeforeRequest ErrorCode.dns = Unit
IsBeforeRequest ErrorCode.connect = Unit
IsBeforeRequest ErrorCode.proxy = Unit
IsBeforeRequest ErrorCode.tls = Unit
IsBeforeRequest _ = ⊥

-- A status that means a refusal: below 500, not 409, and not from 200 to 299.
abbrev pub IsRefusal : ℤ → Type 0
IsRefusal status =
    (status <ℤ pos 500) × (¬ status ≡ pos 409) × ((status <ℤ pos 200) ⊎ (pos 300 ≤ℤ status))

-- What a report says of an attempt that cannot have been accepted, by whether it was completed, the
-- commit tracker, the response and the failure.
abbrev pub RulesOut : Bool → Bool → Option AttemptResponse → Option AttemptFailure → Type 0
RulesOut false marked r f = marked ≡ false
RulesOut true marked none none = marked ≡ false
RulesOut true marked none (some f) =
    ((marked ≡ false) × (f.committed ≡ false)) ⊎ IsBeforeRequest f.code
RulesOut true marked (some r) none = IsRefusal r.status
RulesOut true marked (some r) (some f) = IsRefusal r.status ⊎ IsBeforeRequest f.code

abbrev pub IsUnaccepted : AttemptReport → Type 0
IsUnaccepted r = RulesOut r.completed r.marked r.outcome.response r.outcome.failure

pre_commit_failure-IsBeforeRequest :
    (code : ErrorCode) → pre_commit_failure code ≡ true → IsBeforeRequest code
unfolding pre_commit_failure
pre_commit_failure-IsBeforeRequest code h = ground (arith, h)

response_may-IsRefusal :
    (status : ℤ) → response_may_have_been_accepted status ≡ false → IsRefusal status
unfolding response_may_have_been_accepted
response_may-IsRefusal status h = ground (arith, h)

abbrev HasStatus : ℤ → AttemptResponse → Type 0
HasStatus status r = r.status ≡ status

encoding_P {ℓ κ} :
    {A : Type ℓ} (P : A → Type κ) (e : Encoding) (x y : A)
    → P x
    → P y
    → P (elim e [ Encoding.gzipped ↦ x | _ ↦ y ])
encoding_P P Encoding.plain x y h k = k
encoding_P P Encoding.gzipped x y h k = h
encoding_P P Encoding.unsupported x y h k = k

snapshot_headers-status : (r : AttemptResponse) → HasStatus r.status (snapshot_headers r)
unfolding mark_response_header_violation
snapshot_headers-status r =
    Option_P (HasStatus r.status) r.headers r _ (λ _. refl)
      λ hs _.
        if_P (HasStatus r.status) (validate_response_headers hs) r _ (λ _. refl)
          λ _.
            if_P (HasStatus r.status) (response_headers_exceed_limit (or_empty r.headers)) _ _
              (λ _. refl) λ _. refl

snapshot_limits-status : (r : AttemptResponse) → HasStatus r.status (snapshot_limits r)
unfolding snapshot_limits
snapshot_limits-status r =
    if_P (HasStatus r.status)
      (not r.normalized
        && not r.protocol_violation
        && not r.limit_violation
        && response_exceeds_limits r)
      _ r
      (λ _.
        encoding_P (HasStatus r.status) (response_content_encoding (or_empty r.headers)) _ _ refl
          refl)
      λ _. refl

snapshot_attempt_response-status :
    (r : AttemptResponse) → (snapshot_attempt_response r).status ≡ r.status
unfolding snapshot_attempt_response
snapshot_attempt_response-status r =
    snapshot_limits-status (snapshot_headers r) ∙ snapshot_headers-status r

neither : (a b : Bool) → (a || b) ≡ false → (a ≡ false) × (b ≡ false)
neither a b h = (ground (arith, h), ground (arith, h))

-- One of the two tests of a commitment has failed.
either : (a b : Bool) → (not a && b) ≡ false → (b ≡ false) ⊎ (a ≡ true)
either true b h = inr refl
either false b h = inl h

module _ (config : RetryConfig) (call : Call) (sent : Sent) where
  completed-RulesOut :
      (k : ℕ) (world : Surroundings) (marked : Bool) (r : Option AttemptResponse)
      (f : Option AttemptFailure)
      → attempt_committed marked
          (record { response = snapshot_response config call sent k world r; failure = f })
        ≡ false
      → RulesOut true marked r f
  unfolding attempt_committed snapshot_response
  completed-RulesOut k world marked none none h = (neither marked false h).0
  completed-RulesOut k world marked none (some f) h =
      elim (either (pre_commit_failure f.code) (marked || f.committed) h) [
        | inl e ↦ inl (neither marked f.committed e)
        | inr e ↦ inr (pre_commit_failure-IsBeforeRequest f.code e)
      ]
  completed-RulesOut k world marked (some r) none h =
      response_may-IsRefusal r.status
        (ap response_may_have_been_accepted (sym (snapshot_attempt_response-status r)) ∙ h)
  completed-RulesOut k world marked (some r) (some f) h =
      elim (either (pre_commit_failure f.code)
        (response_may_have_been_accepted (snapshot_attempt_response r).status) h) [
          | inl e ↦ inl (
              response_may-IsRefusal r.status
                (ap response_may_have_been_accepted (sym (snapshot_attempt_response-status r)) ∙ e))
          | inr e ↦ inr (pre_commit_failure-IsBeforeRequest f.code e)
        ]

  report-RulesOut :
      (k : ℕ) (world : Surroundings) (completed marked : Bool) (o : AttemptOutcome)
      → attempt_committed marked (
          if completed
          then record o { response = snapshot_response config call sent k world o.response }
          else timed_out config call sent k world marked)
        ≡ false
      → RulesOut completed marked o.response o.failure
  report-RulesOut k world true marked o h = completed-RulesOut k world marked o.response o.failure h
  report-RulesOut k world false marked o h =
      sym (timed_out-committed config call sent k world marked) ∙ h

  module _ (world : ℕ → Surroundings) where
    -- An attempt among the actions cannot have been accepted, by its report.
    abbrev pub Unaccepted : Action → Type 0
    Unaccepted (sends k budget) = IsUnaccepted (world k).report
    Unaccepted _ = Unit

    All-Unaccepted : (xs : List Action) → NoneAccepted config call sent world xs → All Unaccepted xs
    All-Unaccepted [] h = tt
    All-Unaccepted (sends k b ∷ xs) h = (
      report-RulesOut k (world k) (world k).report.completed (world k).report.marked
          (world k).report.outcome h.0,
      All-Unaccepted xs h.1,
    )
    All-Unaccepted (closes j b ∷ xs) h = (tt, All-Unaccepted xs h.1)
    All-Unaccepted (counts_header_limit j ∷ xs) h = (tt, All-Unaccepted xs h.1)
    All-Unaccepted (pauses j m ∷ xs) h = (tt, All-Unaccepted xs h.1)

    -- However the transport, the hooks and the contexts behave: where an operation ends in an error
    -- whose delivery state rules out an acceptance (NOT_SENT, REJECTED, or none at all), the report of
    -- every attempt that was handed to the transport says one of these: it was not completed, and the
    -- commit tracker is not set; it has a response, whose status is below 500, not 409 and not from
    -- 200 to 299; it has no response, the tracker is not set, and its failure, if there is one, does not
    -- say committed; or its failure is one of DNS, CONNECT, PROXY and TLS.
    pub unsent-IsUnsent :
        (e : Error)
        → (send_attempts config call sent world).1 ≡ failed e
        → IsUnsent e.delivery_state
        → All Unaccepted (send_attempts config call sent world).0
    unsent-IsUnsent e h u =
        All-Unaccepted (send_attempts config call sent world).0
          (unsent-NoneAccepted config call sent world e h u)
