-- ===== src/Operation/Prepare/Outcomes.antt =====
-- operation.go: what holds of both outcomes of a preparation.
use repost_go.Operation.Prepare.Rules.{
  Holds, Holds-bind, Holds-require, Holds-ready, Holds-of, Holds-refused,
}
use mathlib.Core.Path.{subst}
use repost_go.Errors.{DeliveryState, Error, ErrorCode}
use repost_go.Operation.Issues.{serializer_operation_error}
use repost_go.Operation.Keys.{
  attempt_headers, operation_user_agent, valid_credential, valid_idempotency_key,
}
use repost_go.Operation.Prepare.{
  Step, Serialized, EventLookup, Preparation, Prepared, ready, refused, ◌>>=◌, ◌>>◌, Ready, check,
  bounded, event_step, provider_error, provided_key, fixed_key, generated_key, invalid_key_error,
  idempotency_key_step, now_step, after_serialization, serialize_step, encoded_body, marshal_step,
  prepare, call_with,
}
use repost_go.Operation.{Sample, pre_attempt_terminal}
use repost_go.Prelude.{
  ◌≤◌, ◌≡◌, ap, ◌∙◌, refl, ◌⊎◌, inl, inr, Bool, true, false, not, Option, none, some, Bytes, length,
  ltb, ◌==◌, if◌then◌else◌, if_P, Option_P, not_zero, arith,
}
use repost_go.Response.Headers.{max_payload_bytes}

-- An error of an operation that sent nothing.
pub record NotSent (operation_id : Bytes) (e : Error) : Type 0 where
  pub state : e.delivery_state ≡ DeliveryState.not_sent
  pub attempts : e.attempt_count ≡ 0
  pub id : e.operation_id ≡ operation_id

abbrev Any {ℓ} : {A : Type ℓ} → A → Type 0
Any _ = Unit

-- The key is that of the configuration, or passes the test of the code.
unfoldable pub Credential : Preparation → Bytes → Type 0
Credential p key = (valid_credential key ≡ true) ⊎ ((key ≡ p.api_key) × (1 ≤ length key))

-- What the loop is entered with, of a preparation.
pub record IsReady (p : Preparation) (r : Ready) : Type 0 where
  pub api_key : Bytes
  pub credential : Credential p api_key
  pub headers :
      r.headers
      ≡ attempt_headers api_key (operation_user_agent p.user_agent_suffix) r.idempotency_key
  pub key : valid_idempotency_key r.idempotency_key ≡ true
  pub body : length r.body ≤ max_payload_bytes
  pub marshaled : p.marshal ≡ some (some r.body)
  pub shrunk : r.request_bytes ≡ length r.body

-- The terminal error, where there is one.
Terminal : Bytes → Option Error → Type 0
Terminal id none = Unit
Terminal id (some e) = NotSent id e

module _ (p : Preparation) where
  pre_attempt_terminal-Terminal :
      (s : Sample) (key : Bytes)
      → Terminal p.operation_id (pre_attempt_terminal s false 0 (call_with p key))
  unfolding pre_attempt_terminal Terminal
  pre_attempt_terminal-Terminal s key = ground arith

  abbrev R : Error → Type 0
  R = NotSent p.operation_id

  check-Holds : (step : Step) (key : Bytes) → Holds R Any (check p step key)
  unfolding Holds check Terminal
  check-Holds step key =
      Option_P (Holds R Any) (pre_attempt_terminal (p.look step) false 0 (call_with p key)) _ _
        (λ _. tt)
        λ e h. subst (Terminal p.operation_id) h (pre_attempt_terminal-Terminal (p.look step) key)

  bounded-Holds :
      {A : Type 0} (a : Option A) (step : Step) (key : Bytes)
      → Holds R (λ x. a ≡ some x) (bounded p a step key)
  unfolding Holds bounded Terminal
  bounded-Holds (some a) step key = refl
  bounded-Holds none step key =
      Option_P (Holds R _) (pre_attempt_terminal (p.look step) false 0 (call_with p key)) _ _
        (λ _. tt)
        λ e h. subst (Terminal p.operation_id) h (pre_attempt_terminal-Terminal (p.look step) key)

  -- A look at the contexts before the rest.
  checked {κ} :
      {B : Type κ} (Q : B → Type 0) (step : Step) (key : Bytes) (k : Prepared B)
      → Holds R Q k
      → Holds R Q (check p step key >> k)
  checked Q step key k h =
      Holds-bind R Any Q (check p step key) (λ _. k) (check-Holds step key) λ _ _. h

  answered {κ} :
      {A : Type 0} {B : Type κ} (Q : B → Type 0) (a : Option A) (step : Step) (key : Bytes)
      (f : A → Prepared B)
      → ((x : A) → a ≡ some x → Holds R Q (f x))
      → Holds R Q (bounded p a step key >>= f)
  answered Q a step key f h =
      Holds-bind R (λ x. a ≡ some x) Q (bounded p a step key) f (bounded-Holds a step key) h

  plain :
      (e : Error)
      → e.delivery_state ≡ DeliveryState.not_sent
      → e.attempt_count ≡ 0
      → e.operation_id ≡ p.operation_id
      → R e
  plain e s a i = record { state = s; attempts = a; id = i }

  event_step-Holds : (l : EventLookup) → Holds R Any (event_step p l)
  unfolding Holds event_step
  event_step-Holds EventLookup.other_version = plain _ refl refl refl
  event_step-Holds EventLookup.invalid_schema = plain _ refl refl refl
  event_step-Holds EventLookup.no_event = plain _ refl refl refl
  event_step-Holds EventLookup.found = tt

  provider_error-NotSent : R (provider_error p)
  unfolding provider_error repost_go.Errors.hook_configuration_error
  provider_error-NotSent =
      if_P R p.ended_in_provider _ _ (λ _. plain _ refl refl refl) λ _. plain _ refl refl refl

  invalid_key_error-NotSent : (b : Bool) (key : Bytes) → R (invalid_key_error p b key)
  unfolding invalid_key_error
  invalid_key_error-NotSent b key =
      if_P R b _ _ (λ _. plain _ refl refl refl) λ _. plain _ refl refl refl

  provided_key-Holds : Holds R (Credential p) (provided_key p)
  unfolding provided_key Credential
  provided_key-Holds =
      let C : Bytes → Type 0 = Credential p in
      checked C _ _ _ (
        answered C p.provider _ _ _ λ (key, is_ok) _. checked C _ _ _ (
          Holds-require R C is_ok _ _ (λ _. provider_error-NotSent)
            λ _.
              Holds-require R C (valid_credential key) _ _ (λ _. plain _ refl refl refl)
                λ v. Holds-ready R C key (inl v)))

  fixed_key-Holds : Holds R (Credential p) (fixed_key p)
  unfolding fixed_key Credential
  fixed_key-Holds =
      Holds-require R (Credential p) (not (length p.api_key == 0)) _ _ (λ _. plain _ refl refl refl)
        λ h. Holds-ready R (Credential p) p.api_key (inr (refl, not_zero (length p.api_key) h))

  generated_key-Holds : Holds R Any (generated_key p)
  unfolding generated_key repost_go.Errors.hook_configuration_error
  generated_key-Holds = checked Any _ _ _ (
      answered Any p.generator _ _ _ λ (key, is_ok) _.
        checked Any _ _ _ (
          Holds-require R Any is_ok _ _ (λ _. plain _ refl refl refl)
            λ _. Holds-ready R Any key tt))

  abbrev IsKey : Bytes → Type 0
  IsKey key = valid_idempotency_key key ≡ true

  idempotency_key_step-Holds : Holds R IsKey (idempotency_key_step p)
  unfolding idempotency_key_step
  idempotency_key_step-Holds =
      Holds-bind R Any IsKey
        (if not (length p.caller_key == 0) then ready p.caller_key else generated_key p) _
        (if_P (Holds R Any) (not (length p.caller_key == 0)) _ _
          (λ _. Holds-ready R Any p.caller_key tt) λ _. generated_key-Holds)
        λ key _.
          Holds-require R IsKey (valid_idempotency_key key) _ _
            (λ _. invalid_key_error-NotSent (not (length p.caller_key == 0)) key)
            λ v. Holds-ready R IsKey key v

  now_step-Holds : (key : Bytes) → Holds R Any (now_step p key)
  unfolding now_step repost_go.Errors.hook_configuration_error
  now_step-Holds key = checked Any _ _ _ (
      answered Any p.now _ _ _ λ (now, is_ok) _.
        checked Any _ _ _ (
          Holds-require R Any is_ok _ _ (λ _. plain _ refl refl refl)
            λ _. Holds-ready R Any now tt))

  after_serialization-Holds :
      (key : Bytes) (s : Serialized) → Holds R Any (after_serialization p key s)
  unfolding Holds after_serialization repost_go.Errors.hook_configuration_error
      serializer_operation_error
  after_serialization-Holds key Serialized.generator_panicked = plain _ refl refl refl
  after_serialization-Holds key (Serialized.serializer_failed e) = plain _ refl refl refl
  after_serialization-Holds key Serialized.serialized = tt

  serialize_step-Holds : (key : Bytes) → Holds R Any (serialize_step p key)
  unfolding serialize_step
  serialize_step-Holds key = checked Any _ _ _ (
      answered Any p.serialization _ _ _ λ s _. checked Any _ _ _ (after_serialization-Holds key s))

  encoded_body-Holds :
      (key : Bytes) (m : Option Bytes) → Holds R (λ body. m ≡ some body) (encoded_body p key m)
  unfolding Holds encoded_body
  encoded_body-Holds key none = plain _ refl refl refl
  encoded_body-Holds key (some body) = refl

  abbrev IsBody : Bytes → Type 0
  IsBody body = (length body ≤ max_payload_bytes) × (p.marshal ≡ some (some body))

  marshal_step-Holds : (key : Bytes) → Holds R IsBody (marshal_step p key)
  unfolding marshal_step
  marshal_step-Holds key = checked IsBody _ _ _ (
      answered IsBody p.marshal _ _ _ λ m given. checked IsBody _ _ _ (
        Holds-bind R (λ body. m ≡ some body) IsBody (encoded_body p key m) _
          (encoded_body-Holds key m)
          λ body e.
            Holds-require R IsBody (not (ltb max_payload_bytes (length body))) _ _
              (λ _. plain _ refl refl refl)
              λ h. Holds-ready R IsBody body (ground (arith, h), given ∙ ap some e)))

  pub prepare-Holds : Holds R (IsReady p) (prepare p)
  unfolding prepare
  prepare-Holds =
      let Q : Ready → Type 0 = IsReady p in
      checked Q _ _ _ (
        Holds-bind R Any Q (event_step p p.event) _ (event_step-Holds p.event) λ _ _.
          Holds-bind R (Credential p) Q (if p.has_provider then provided_key p else fixed_key p) _
            (if_P (Holds R (Credential p)) p.has_provider _ _ (λ _. provided_key-Holds)
              λ _. fixed_key-Holds)
            λ api_key credential. checked Q _ _ _ (
              Holds-bind R IsKey Q (idempotency_key_step p) _ idempotency_key_step-Holds
                λ key valid. Holds-bind R Any Q (now_step p key) _ (now_step-Holds key) λ now _.
                  Holds-bind R Any Q (serialize_step p key) _ (serialize_step-Holds key) λ _ _.
                    Holds-bind R IsBody Q (marshal_step p key) _ (marshal_step-Holds key)
                      λ body short. checked Q _ _ _ (
                        Holds-ready R Q _ (record {
                          api_key = api_key;
                          credential = credential;
                          headers = refl;
                          key = valid;
                          body = short.0;
                          marshaled = short.1;
                          shrunk = refl;
                        }))))

-- Whatever the hooks and the contexts do, an error that `sendAdmitted` returns before its loop says that
-- nothing was sent, counts no attempt, and has the id of the operation.
pub refused-NotSent :
    (p : Preparation) (e : Error)
    → prepare p ≡ refused e
    → (e.delivery_state ≡ DeliveryState.not_sent)
      × (e.attempt_count ≡ 0)
      × (e.operation_id ≡ p.operation_id)
refused-NotSent p e h =
    let n : NotSent p.operation_id e =
      Holds-refused (NotSent p.operation_id) (IsReady p) (prepare p) e (prepare-Holds p) h in
    (n.state, n.attempts, n.id)

pub ready-IsReady : (p : Preparation) (r : Ready) → prepare p ≡ ready r → IsReady p r
ready-IsReady p r h =
    Holds-of (NotSent p.operation_id) (IsReady p) (prepare p) r (prepare-Holds p) h
