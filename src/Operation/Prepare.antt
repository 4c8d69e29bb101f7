-- ===== src/Operation/Prepare.antt =====
-- operation.go: `sendAdmitted` before its loop. The hooks, the serialization and the contexts are what
-- they answer; a call that the permit's deadline cuts off answers nothing.
pub mod Rules
pub mod Outcomes
pub mod Wire
use repost_go.Errors.{
  ErrorCode, DeliveryState, CauseCategory, ClientOptionKey, ConfigurationIssueCode,
  ValidationIssueCode, Error, no_error_fields, hook_configuration_error, operation_error,
}
use repost_go.Operation.Issues.{SerializerError, serializer_operation_error}
use repost_go.Operation.Keys.{
  valid_idempotency_key, valid_credential, operation_user_agent, attempt_headers,
}
use repost_go.Operation.{Sample, Call, ContextErr, pre_attempt_terminal}
use repost_go.Prelude.Int.{ℤ, pos}
use repost_go.Prelude.{
  ℕ, ◌+◌, Bool, true, false, not, ◌&&◌, ◌||◌, Option, none, some, List, [], ◌∷◌, Bytes, length, ltb,
  ◌==◌, if◌then◌else◌,
}
use repost_go.Response.Headers.{max_payload_bytes}
use repost_go.Response.{HeaderField}
use repost_go.Text.{codes}

-- Where the contexts and the clock are looked at, in the order of the source. A `cut` is a look behind a
-- call that was cut off.
pub data Step : Type 0 where
  at_start before_provider provider_cut after_provider after_key : Step
  before_generator generator_cut after_generator before_now now_cut after_now : Step
  before_serialize serialize_cut after_serialize before_marshal marshal_cut : Step
  after_marshal before_headers : Step

-- What a hook that returns a text answers: the text, and whether it neither panicked nor failed.
abbrev pub HookAnswer : Type 0
HookAnswer = Option (Bytes × Bool)

pub data Serialized : Type 0 where
  generator_panicked : Serialized
  serializer_failed : SerializerError → Serialized
  serialized : Serialized

-- What the descriptors say of the event: the checks of `ValidateSchemaDescriptor` and the look-up.
pub data EventLookup : Type 0 where
  other_version invalid_schema no_event found : EventLookup

pub record Preparation : Type 0 where
  pub look : Step → Sample
  pub event : EventLookup
  pub api_key : Bytes
  pub has_provider : Bool
  pub provider : HookAnswer
  -- `ctx.Err() != nil` behind a provider that failed
  pub ended_in_provider : Bool
  pub caller_key : Bytes
  pub generator : HookAnswer
  pub now : HookAnswer
  pub serialization : Option Serialized
  -- `none` inside is an error of the encoder
  pub marshal : Option (Option Bytes)
  pub user_agent_suffix : Bytes
  pub operation_id : Bytes
  pub exclusive_deadline : ℤ

-- `nil_error` is a nil `*Error` returned as an error.
pub data Prepared {ℓ} (A : Type ℓ) : Type ℓ where
  ready : A → Prepared A
  refused : Error → Prepared A
  nil_error : Prepared A

infixl 5 ◌>>=◌ ◌>>◌
unfoldable pub ◌>>=◌ {ℓ κ} : {A : Type ℓ} {B : Type κ} → Prepared A → (A → Prepared B) → Prepared B
ready a >>= f = f a
refused e >>= f = refused e
nil_error >>= f = nil_error

abbrev pub ◌>>◌ {ℓ} : {B : Type ℓ} → Prepared (Unit {0}) → Prepared B → Prepared B
m >> k = m >>= λ _. k

unfoldable pub require : Bool → Error → Prepared (Unit {0})
require true e = ready tt
require false e = refused e

-- What the loop is entered with.
pub record Ready : Type 0 where
  pub headers : List HeaderField
  pub body : Bytes
  pub idempotency_key : Bytes
  pub operation_now : Bytes
  -- what the permit's reservation shrinks to
  pub request_bytes : ℕ

-- `configurationError` of one option
abbrev pub configuration_error : ConfigurationIssueCode → ClientOptionKey → Error
configuration_error code option = record no_error_fields {
  code = ErrorCode.configuration;
  delivery_state = DeliveryState.not_sent;
  issue_count = 1;
  configuration_issues = record { code = code; option_keys = option ∷ [] } ∷ [];
}

-- `decorate`
abbrev pub decorate : Bytes → Error → Error
decorate operation_id e = record e { operation_id = operation_id }

module _ (p : Preparation) where
  abbrev pub call_with : Bytes → Call
  call_with key = record {
    operation_id = p.operation_id;
    idempotency_key = key;
    exclusive_deadline = p.exclusive_deadline;
  }

  unfoldable pub check : Step → Bytes → Prepared (Unit {0})
  unfolding pre_attempt_terminal
  check step key = elim (pre_attempt_terminal (p.look step) false 0 (call_with key)) [
    | none ↦ ready tt
    | some e ↦ refused e
  ]

  -- The answer of a bounded call, or the terminal error where it was cut off.
  unfoldable pub bounded {ℓ} : {A : Type ℓ} → Option A → Step → Bytes → Prepared A
  unfolding pre_attempt_terminal
  bounded (some a) step key = ready a
  bounded none step key = elim (pre_attempt_terminal (p.look step) false 0 (call_with key)) [
    | none ↦ nil_error
    | some e ↦ refused e
  ]

  unfoldable pub event_step : EventLookup → Prepared (Unit {0})
  event_step EventLookup.other_version =
      refused (decorate p.operation_id (operation_error ErrorCode.descriptor_version))
  event_step EventLookup.invalid_schema =
      refused (decorate p.operation_id (operation_error ErrorCode.configuration))
  event_step EventLookup.no_event =
      refused (decorate p.operation_id (operation_error ErrorCode.configuration))
  event_step EventLookup.found = ready tt

  unfoldable pub provider_error : Error
  unfolding hook_configuration_error
  provider_error =
      if p.ended_in_provider
      then decorate p.operation_id (operation_error ErrorCode.cancelled)
      else hook_configuration_error DeliveryState.not_sent p.operation_id [] 0
          ClientOptionKey.api_key_provider CauseCategory.api_key_provider

  unfoldable pub provided_key : Prepared Bytes
  unfolding check bounded provider_error valid_credential
  provided_key = do
    check Step.before_provider []
    (key, is_ok) ← bounded p.provider Step.provider_cut []
    check Step.after_provider []
    require is_ok provider_error
    require (valid_credential key) (
        decorate p.operation_id (
          configuration_error ConfigurationIssueCode.invalid_value
            ClientOptionKey.api_key_provider))
    ready key

  unfoldable pub fixed_key : Prepared Bytes
  fixed_key = do
    require (not (length p.api_key == 0)) (
        decorate p.operation_id
          (configuration_error ConfigurationIssueCode.missing ClientOptionKey.api_key))
    ready p.api_key

  unfoldable pub generated_key : Prepared Bytes
  unfolding check bounded hook_configuration_error
  generated_key = do
    check Step.before_generator []
    (key, is_ok) ← bounded p.generator Step.generator_cut []
    check Step.after_generator []
    require is_ok (
        hook_configuration_error DeliveryState.not_sent p.operation_id [] 0
          ClientOptionKey.idempotency_key_generator CauseCategory.idempotency_generator)
    ready key

  unfoldable pub invalid_key_error : Bool → Bytes → Error
  invalid_key_error from_caller key =
      if from_caller
      then record no_error_fields {
        code = ErrorCode.validation;
        delivery_state = DeliveryState.not_sent;
        operation_id = p.operation_id;
        validation_issues =
            record {
              code =
                  if ltb 255 (length key)
                  then ValidationIssueCode.collection_limit
                  else ValidationIssueCode.invalid_unicode;
              path = codes "$";
            }
            ∷ [];
      }
      else decorate p.operation_id (
          configuration_error ConfigurationIssueCode.invalid_value
            ClientOptionKey.idempotency_key_generator)

  unfoldable pub idempotency_key_step : Prepared Bytes
  unfolding generated_key invalid_key_error valid_idempotency_key
  idempotency_key_step = do
    let from_caller = not (length p.caller_key == 0)
    let generated = generated_key
    key ← if from_caller then ready p.caller_key else generated
    require (valid_idempotency_key key) (invalid_key_error from_caller key)
    ready key

  unfoldable pub now_step : Bytes → Prepared Bytes
  unfolding check bounded hook_configuration_error
  now_step key = do
    check Step.before_now key
    (now, is_ok) ← bounded p.now Step.now_cut key
    check Step.after_now key
    require is_ok (
        hook_configuration_error DeliveryState.not_sent p.operation_id key 0
          ClientOptionKey.default_value_generators CauseCategory.default_generator)
    ready now

  unfoldable pub after_serialization : Bytes → Serialized → Prepared (Unit {0})
  unfolding hook_configuration_error serializer_operation_error
  after_serialization key Serialized.generator_panicked = refused (
      hook_configuration_error DeliveryState.not_sent p.operation_id key 0
        ClientOptionKey.default_value_generators CauseCategory.default_generator)
  after_serialization key (Serialized.serializer_failed e) =
      refused (serializer_operation_error e p.operation_id key)
  after_serialization key Serialized.serialized = ready tt

  unfoldable pub serialize_step : Bytes → Prepared (Unit {0})
  unfolding check bounded after_serialization
  serialize_step key = do
    check Step.before_serialize key
    s ← bounded p.serialization Step.serialize_cut key
    check Step.after_serialize key
    after_serialization key s

  abbrev pub body_error : ErrorCode → Bytes → Error
  body_error code key = record no_error_fields {
    code = code;
    delivery_state = DeliveryState.not_sent;
    operation_id = p.operation_id;
    idempotency_key = key;
  }

  unfoldable pub encoded_body : Bytes → Option Bytes → Prepared Bytes
  encoded_body key none = refused (body_error ErrorCode.serialization key)
  encoded_body key (some body) = ready body

  unfoldable pub marshal_step : Bytes → Prepared Bytes
  unfolding check bounded encoded_body
  marshal_step key = do
    check Step.before_marshal key
    m ← bounded p.marshal Step.marshal_cut key
    check Step.after_marshal key
    body ← encoded_body key m
    require (not (ltb max_payload_bytes (length body))) (body_error ErrorCode.request_too_large key)
    ready body

  unfoldable pub prepare : Prepared Ready
  unfolding check event_step provided_key fixed_key idempotency_key_step now_step serialize_step
      marshal_step operation_user_agent attempt_headers
  prepare = do
    check Step.at_start []
    event_step p.event
    let provided = provided_key
    let fixed = fixed_key
    api_key ← if p.has_provider then provided else fixed
    check Step.after_key []
    key ← idempotency_key_step
    now ← now_step key
    serialize_step key
    body ← marshal_step key
    check Step.before_headers key
    ready (record {
      headers = attempt_headers api_key (operation_user_agent p.user_agent_suffix) key;
      body = body;
      idempotency_key = key;
      operation_now = now;
      request_bytes = length body;
    })
