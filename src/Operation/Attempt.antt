-- ===== src/Operation/Attempt.antt =====
-- operation.go: the loop of `sendAdmitted` over the attempts. An attempt is a function from what its
-- surroundings answer to the actions it takes, in order, and to how the loop goes on.
pub mod Honest
pub mod Turns
pub mod Commitment
pub mod Unaccepted
pub mod Pauses
pub mod Outcomes
pub mod Numbering
pub mod Success
use repost_go.Errors.{
  ErrorCode, DeliveryState, FailureReason, CauseCategory, ClientOptionKey, Error, no_error_fields,
  hook_configuration_error,
}
use repost_go.Operation.Backoff.{
  Point, EntropyReport, SleepReport, RetryConfig, Pause, Paused, waited, stopped, resumed,
  nil_dereference, backoff,
}
use repost_go.Operation.{
  Sample, Call, pre_attempt_terminal, deadline_terminal, clock_error, with_response_evidence,
  pre_commit_failure, response_may_have_been_accepted, valid_attempt_failure,
  classify_attempt_failure, set_attempt_cause,
}
use repost_go.Prelude.Int.{ℤ, pos, ◌-ℤ◌, leb_ℤ, ltb_ℤ, min_ℤ, wrap64}
use repost_go.Prelude.{
  ℕ, zero, suc, ◌+◌, ◌-◌, Bool, true, false, not, ◌&&◌, ◌||◌, Option, none, some, List, [], ◌∷◌,
  ◌++◌, ◌==◌, if◌then◌else◌,
}
use repost_go.Response.Headers.{snapshot_attempt_response}
use repost_go.Response.RetryAfter.{
  response_needs_wall_snapshot_for_status, status_in, status_is, status_proxy_auth_required,
}
use repost_go.Response.Validate.{Sent, Verdict, accepted, refused, validate_attempt_response}
use repost_go.Response.{SendResult, AttemptResponse, AttemptFailure, AttemptOutcome, or_empty}

-- What `boundedAttemptCall` returned for the transport's attempt, the commit tracker after it, and
-- whether closing its response fails. A transport that panics gives the empty outcome.
pub record AttemptReport : Type 0 where
  pub outcome : AttemptOutcome
  pub completed : Bool
  pub marked : Bool
  pub close_fails : Bool

-- What the surroundings of one attempt answer.
pub record Surroundings : Type 0 where
  pub pause : Pause
  pub report : AttemptReport

pub data Action : Type 0 where
  -- the attempt handed to the transport, with its time budget
  sends : ℕ → ℤ → Action
  -- the response closed; the flag is a close that failed, which is counted
  closes : ℕ → Bool → Action
  counts_header_limit : ℕ → Action
  -- the pause before the next attempt, in milliseconds
  pauses : ℕ → ℕ → Action

pub data Result : Type 0 where
  succeeded : SendResult → Result
  failed : Error → Result
  panicked : Result

-- `again` carries the commitment into the next attempt.
pub data Next : Type 0 where
  finished : Result → Next
  again : Bool → Next

abbrev pub Turn : Type 0
Turn = List Action × Next

infixr 5 ◌then_do◌
abbrev pub ◌then_do◌ : List Action → Turn → Turn
xs then_do (ys, next) = (xs ++ ys, next)

abbrev pub fails : Error → Turn
fails e = ([], finished (failed e))

abbrev pub or_go_on : Option Error → Turn → Turn
or_go_on none t = t
or_go_on (some e) t = fails e

-- `validAttemptResponseShape` on a response that is not nil.
abbrev pub failure_code_ok : ErrorCode → Bool
failure_code_ok ErrorCode.unset = true
failure_code_ok ErrorCode.attempt_timeout = true
failure_code_ok _ = false

abbrev pub is_nil {ℓ} : {A : Type ℓ} → Option A → Bool
is_nil none = true
is_nil (some x) = false

abbrev pub differs : Bool → Bool → Bool
differs true b = not b
differs false b = b

unfoldable pub valid_attempt_response_shape : AttemptResponse → Bool
valid_attempt_response_shape r =
    let has_time = not (status_is r.headers_received_at (pos 0)) in
    let needs_time = response_needs_wall_snapshot_for_status r.status (or_empty r.headers) in
    not (
      ltb_ℤ r.status (pos 100)
      || ltb_ℤ (pos 599) r.status
      || is_nil r.headers
      || is_nil r.body
      || ltb_ℤ r.compressed_bytes (pos 0)
      || ltb_ℤ r.decompressed_bytes (pos 0)
      || not (failure_code_ok r.attempt_failure_code))
    && not (
        differs r.headers_received_at_set has_time
        || r.header_clock_failed && (r.headers_received_at_set || has_time)
        || (r.headers_received_at_set || r.header_clock_failed) && not needs_time
        || needs_time && not r.headers_received_at_set && not r.header_clock_failed)

-- Exactly one of response and failure, and that one valid.
unfoldable pub well_formed_outcome : AttemptOutcome → Bool
well_formed_outcome o = elim o.response [
  | none ↦ elim o.failure [ none ↦ false | some f ↦ valid_attempt_failure f ]
  | some r ↦ elim o.failure [ none ↦ valid_attempt_response_shape r | some f ↦ false ]
]

abbrev pub failure_committed : Option AttemptFailure → Bool
failure_committed none = false
failure_committed (some f) = f.committed

abbrev pub failed_before_commit : Option AttemptFailure → Bool
failed_before_commit none = false
failed_before_commit (some f) = pre_commit_failure f.code

-- `attemptCommitted`
unfoldable pub attempt_committed : Bool → AttemptOutcome → Bool
attempt_committed marked o =
    let evidence : Bool = elim o.response [
      | none ↦ marked || failure_committed o.failure
      | some r ↦ response_may_have_been_accepted r.status
    ] in
    not (failed_before_commit o.failure) && evidence

-- The time budget of an attempt that starts at `now`.
unfoldable pub attempt_budget : RetryConfig → Call → ℤ → ℤ
attempt_budget config call now =
    min_ℤ config.attempt_timeout (wrap64 (call.exclusive_deadline -ℤ now))

module _ (config : RetryConfig) (call : Call) (sent : Sent) (attempt : ℕ)
    (world : Surroundings) where
  unfoldable pub terminal : Point → Bool → ℕ → Option Error
  terminal point committed attempts =
      pre_attempt_terminal (world.pause.look point) committed attempts call

  -- `outcome.Response.close()`, which does nothing on nil.
  unfoldable pub close : Option AttemptResponse → List Action
  close none = []
  close (some r) = closes attempt world.report.close_fails ∷ []

  -- The pause, and the next attempt.
  unfoldable pub after_pause : Bool → Paused → Turn
  after_pause committed (waited millis) = (pauses attempt millis ∷ [], again committed)
  after_pause committed (stopped e) = fails e
  after_pause committed resumed = ([], again committed)
  after_pause committed nil_dereference = ([], finished panicked)

  unfoldable pub retry_or_fail : Bool → Option AttemptResponse → Error → Turn
  retry_or_fail committed response e =
      if not e.retryable || attempt == config.max_attempts
      then fails e
      else after_pause committed (backoff config call world.pause e attempt committed response)

  unfoldable pub stamped : Error → Error
  stamped e = record e {
    operation_id = call.operation_id;
    idempotency_key = call.idempotency_key;
    attempt_count = attempt;
  }

  unfoldable pub malformed : Error
  malformed = record no_error_fields {
    code = ErrorCode.io;
    delivery_state = DeliveryState.possibly_sent;
    operation_id = call.operation_id;
    idempotency_key = call.idempotency_key;
    attempt_count = attempt;
    failure_reason = FailureReason.unknown;
    cause_category =
        if config.owns_transport
        then CauseCategory.http_runtime
        else CauseCategory.custom_transport;
  }

  -- The error of a response, once the operation's marks are on it; a floor of commitment from
  -- earlier attempts lifts REJECTED and the proxy's NOT_SENT.
  unfoldable pub lifted : Bool → Error → Error
  lifted committed_before e = elim e.code [
    | ErrorCode.proxy ↦
        if committed_before then record e { delivery_state = DeliveryState.possibly_sent } else e
    | _ ↦ elim e.delivery_state [
      | DeliveryState.rejected ↦
          if committed_before then record e { delivery_state = DeliveryState.possibly_sent } else e
      | _ ↦ e
    ]
  ]

  unfoldable pub response_error : Bool → AttemptResponse → Error → Error
  response_error committed_before r e = lifted committed_before (
      if status_is r.status status_proxy_auth_required
      then set_attempt_cause config.owns_transport (stamped e)
      else stamped e)

  unfoldable pub evidence_of : AttemptResponse → Error
  evidence_of r = record no_error_fields {
    http_status = r.status;
    compressed_bytes = r.compressed_bytes;
    decompressed_bytes = r.decompressed_bytes;
    truncated = r.truncated;
  }

  abbrev pub or_with_evidence : Option Error → Error → Turn → Turn
  or_with_evidence none last t = t
  or_with_evidence (some e) last t = fails (with_response_evidence e last)

  unfoldable pub on_response : Bool → Bool → AttemptResponse → Verdict → Turn
  on_response committed_before committed r (accepted result) =
      close (some r)
      then_do or_with_evidence
          (deadline_terminal (world.pause.look Point.after_success) committed attempt call)
          (evidence_of r) ([], finished (succeeded result))
  on_response committed_before committed r (refused e) =
      let e' = response_error committed_before r e in
      close (some r)
      then_do or_with_evidence (terminal Point.after_response committed attempt) e'
          (retry_or_fail committed (some r) e')

  unfoldable pub on_failure : Bool → AttemptFailure → Turn
  on_failure committed f =
      let e =
        stamped (set_attempt_cause config.owns_transport (classify_attempt_failure f committed)) in
      or_go_on (terminal Point.after_failure committed attempt) (retry_or_fail committed none e)

  unfoldable pub dispatch : Bool → Bool → AttemptOutcome → Turn
  dispatch committed_before committed o = elim o.response [
    | some r ↦ on_response committed_before committed r (validate_attempt_response r sent)
    | none ↦ elim o.failure [ some f ↦ on_failure committed f | none ↦ fails malformed ]
  ]

  unfoldable pub header_limit : Option AttemptResponse → List Action
  header_limit none = []
  header_limit (some r) = if r.header_limit_violation then counts_header_limit attempt ∷ [] else []

  unfoldable pub snapshot_response : Option AttemptResponse → Option AttemptResponse
  snapshot_response none = none
  snapshot_response (some r) = some (snapshot_attempt_response r)

  -- From the outcome on, with its response snapshotted.
  unfoldable pub settle : Bool → Bool → AttemptOutcome → Turn
  settle committed_before marked o =
      let committed = committed_before || attempt_committed marked o in
      header_limit o.response
      then_do (if well_formed_outcome o
          then dispatch committed_before committed o
          else (close o.response, finished (failed malformed)))

  abbrev pub timed_out : Bool → AttemptOutcome
  timed_out marked = record {
    response = none;
    failure = some (record {
      code = ErrorCode.attempt_timeout;
      failure_reason = FailureReason.unset;
      committed = marked;
      cause_category = CauseCategory.unset;
    });
  }

  -- From the transport's report on.
  unfoldable pub on_report : Bool → AttemptReport → Turn
  on_report committed report =
      if report.completed
      then settle committed report.marked
          (record (report.outcome) { response = snapshot_response report.outcome.response })
      else close report.outcome.response
        then_do or_go_on (terminal Point.after_incomplete (committed || report.marked) attempt)
            (settle committed report.marked (timed_out report.marked))

  unfoldable pub send_with_clock : Bool → Option ℤ → Turn
  send_with_clock committed none = fails (clock_error committed (attempt - 1) call)
  send_with_clock committed (some now) =
      (sends attempt (attempt_budget config call now) ∷ []) then_do on_report committed world.report

  unfoldable pub attempt_turn : Bool → Turn
  attempt_turn committed = or_go_on (terminal Point.before_attempt committed (attempt - 1)) (
      or_go_on (terminal Point.after_clock committed (attempt - 1))
        (send_with_clock committed (world.pause.look Point.attempt_clock).clock))

abbrev pub prepend : List Action → List Action × Result → List Action × Result
prepend xs (ys, r) = (xs ++ ys, r)

-- `return`, or the next round.
unfoldable pub go_on : Turn → (Bool → List Action × Result) → List Action × Result
go_on (xs, finished r) rest = (xs, r)
go_on (xs, again c) rest = prepend xs (rest c)

-- The loop, with `left` rounds to go; the end of the rounds is `panic("unreachable")`.
module _ (config : RetryConfig) (call : Call) (sent : Sent) (world : ℕ → Surroundings) where
  unfoldable pub attempts : ℕ → ℕ → Bool → List Action × Result
  attempts zero attempt committed = ([], panicked)
  attempts (suc left) attempt committed =
      go_on (attempt_turn config call sent attempt (world attempt) committed)
        (attempts left (attempt + 1))

  unfoldable pub send_attempts : List Action × Result
  send_attempts = attempts config.max_attempts 1 false
