-- ===== src/Tests/Preparing.antt =====
-- operation.go, serialize.go: runs of preparations and validations, and concrete inputs of the theorems
-- on them.
use repost_go.Errors.{DeliveryState, ErrorCode}
use repost_go.Operation.Issues.Bounds.{
  Origin, Origins, one, collected, none_more, also, error_of, Bounded, collected-bounds,
}
use repost_go.Operation.Issues.{IssueCode, serializer_operation_error, truncate_validation_path}
use repost_go.Operation.Keys.{attempt_headers, operation_user_agent, valid_operation_id}
use repost_go.Operation.Prepare.Outcomes.{refused-NotSent}
use repost_go.Operation.Prepare.Wire.{IsServed, IsResolved, Accepted, ready-Accepted}
use repost_go.Operation.Prepare.{
  Step, HookAnswer, Serialized, EventLookup, Preparation, Prepared, ready, refused, Ready, prepare,
  body_error,
}
use repost_go.Operation.{Sample, ContextErr}
use repost_go.Prelude.Int.{pos}
use repost_go.Prelude.{
  ℕ, zero, suc, ◌≡◌, refl, inl, inr, true, false, none, some, [], ◌∷◌, Bytes, length, arith,
}
use repost_go.Text.{codes}
use repost_go.Transport.Requests.{Endpoint}

abbrev long_path : ℕ → Bytes
long_path zero = codes "x"
long_path (suc n) = b'.' ∷ b'a' ∷ long_path n

-- A path that is cut behind its last whole name.
cut_path : length (truncate_validation_path (b'$' ∷ long_path 600)) ≡ 1_023
unfolding truncate_validation_path
cut_path = refl

abbrev absent : ℕ → Origin
absent n = one (record { issue_code = IssueCode.required_field; path = b'$' ∷ long_path n })

abbrev nested : Origins
nested = also (absent 1) (also (collected (also (absent 600) none_more)) none_more)

collected-bounds_example :
    Bounded (serializer_operation_error (error_of (collected nested)) (codes "op_1") (codes "k"))
collected-bounds_example = collected-bounds nested (codes "op_1") (codes "k")

abbrev calm : Sample
calm = record {
  deadline_over = false;
  ctx_err = ContextErr.running;
  caller_err = ContextErr.running;
  runtime_closed = false;
  clock = some (pos 5);
}

abbrev pub preparation : Preparation
preparation = record {
  look = λ _. calm;
  event = EventLookup.found;
  api_key = codes "secret";
  has_provider = false;
  provider = none;
  ended_in_provider = false;
  caller_key = [];
  generator = some (codes "k1", true);
  now = some (codes "2026-01-01T00:00:00Z", true);
  serialization = some Serialized.serialized;
  marshal = some (some (codes "{}"));
  user_agent_suffix = [];
  operation_id = codes "op_1";
  exclusive_deadline = pos 9;
}

abbrev pub prepared : Ready
prepared = record {
  headers = attempt_headers (codes "secret") (operation_user_agent []) (codes "k1");
  body = codes "{}";
  idempotency_key = codes "k1";
  operation_now = codes "2026-01-01T00:00:00Z";
  request_bytes = 2;
}

prepares : prepare preparation ≡ ready prepared
unfolding prepare repost_go.Operation.Prepare.◌>>=◌ repost_go.Operation.Prepare.require
prepares = refl

abbrev endpoint : Endpoint
endpoint = record { target = codes "/v1/messages"; authority = codes "api.repost.sh" }

endpoint-IsServed : IsServed endpoint
unfolding repost_go.Text.all_bytes
endpoint-IsServed = record {
  target = codes "v1/messages";
  target_parts = (refl, (ground arith));
  target_text = refl;
  authority = ground arith;
  authority_text = refl;
}

preparation-IsResolved : IsResolved preparation
unfolding repost_go.Operation.Keys.valid_credential
preparation-IsResolved = record { api_key = inr refl; suffix = inl refl }

ready-Accepted_example : Accepted endpoint prepared
ready-Accepted_example =
    ready-Accepted endpoint preparation prepared endpoint-IsServed preparation-IsResolved prepares

-- The encoder failed.
abbrev unencoded : Preparation
unencoded = record preparation { marshal = some none }

fails : prepare unencoded ≡ refused (body_error unencoded ErrorCode.serialization (codes "k1"))
unfolding prepare repost_go.Operation.Prepare.◌>>=◌ repost_go.Operation.Prepare.require
fails = refl

refused-NotSent_example :
    ((body_error unencoded ErrorCode.serialization (codes "k1")).delivery_state
      ≡ DeliveryState.not_sent)
    × ((body_error unencoded ErrorCode.serialization (codes "k1")).attempt_count ≡ 0)
    × ((body_error unencoded ErrorCode.serialization (codes "k1")).operation_id ≡ codes "op_1")
refused-NotSent_example =
    refused-NotSent unencoded (body_error unencoded ErrorCode.serialization (codes "k1")) fails

an_id : valid_operation_id (codes "op_01234567-89ab-4cde-8f01-23456789abcd") ≡ true
unfolding valid_operation_id
an_id = refl
