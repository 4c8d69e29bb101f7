-- ===== src/Operation/Attempt/Turns.antt =====
-- operation.go: the actions and the end of one attempt, against the commitment it leaves behind.
use repost_go.Operation.Attempt.Honest.{
  Honest, HonestOption, HonestPause, pre_attempt_terminal-Honest, deadline_terminal-Honest,
  backoff-Honest,
}
use repost_go.Errors.{Error}
use repost_go.Operation.Attempt.{
  AttemptReport, Surroundings, Action, sends, failed, Next, finished, again, Turn, ◌then_do◌,
  or_go_on, or_with_evidence, terminal, close, after_pause, retry_or_fail, stamped, malformed,
  lifted, response_error, on_response, on_failure, dispatch, header_limit, snapshot_response,
  settle, timed_out, on_report, attempt_committed, well_formed_outcome,
}
use repost_go.Operation.Backoff.{
  Point, RetryConfig, Paused, waited, stopped, resumed, nil_dereference,
}
use repost_go.Operation.{
  Call, with_response_evidence, classify_attempt_failure, set_attempt_cause,
  response_may_have_been_accepted, pre_commit_failure,
}
use repost_go.Prelude.Int.{ℤ}
use repost_go.Prelude.{
  ℕ, ◌≡◌, refl, Bool, true, false, ◌||◌, Option, none, some, List, arith, All, All-append,
  if◌then◌else◌, inl, inr, Bool-cases,
}
use repost_go.Response.Statuses.{Judged, validate_judges_delivery}
use repost_go.Response.Validate.{Sent, Verdict, accepted, refused, validate_attempt_response}
use repost_go.Response.{AttemptResponse, AttemptFailure, AttemptOutcome}

pub set_attempt_cause-Judged :
    (owns : Bool) (status : ℤ) (e : Error)
    → Judged status e
    → Judged status (set_attempt_cause owns e)
unfolding set_attempt_cause
set_attempt_cause-Judged owns status e h = ground arith

pub set_attempt_cause-Honest :
    (owns committed : Bool) (e : Error)
    → Honest committed e
    → Honest committed (set_attempt_cause owns e)
unfolding set_attempt_cause
set_attempt_cause-Honest owns committed e h = ground arith

pub classify-Honest :
    (committed : Bool) (f : AttemptFailure)
    → Honest committed (classify_attempt_failure f committed)
unfolding classify_attempt_failure
classify-Honest true f h = absurd h
classify-Honest false f h = refl

-- What a turn says of the commitment in force at its end.
abbrev pub HonestNext : Bool → Next → Type 0
HonestNext committed (finished (failed e)) = Honest committed e
HonestNext committed (finished _) = Unit
HonestNext committed (again c) = c ≡ committed

-- No attempt is handed to the transport in these actions.
abbrev pub IsQuiet : Action → Type 0
IsQuiet (sends k b) = ⊥
IsQuiet _ = Unit

abbrev pub Settled : Bool → Turn → Type 0
Settled committed (xs, next) = All IsQuiet xs × HonestNext committed next

pub then_do-Settled :
    (committed : Bool) (xs : List Action) (t : Turn)
    → All IsQuiet xs
    → Settled committed t
    → Settled committed (xs then_do t)
then_do-Settled committed xs (ys, next) q (r, h) = (All-append IsQuiet xs ys q r, h)

pub or_go_on-Settled :
    (committed : Bool) (o : Option Error) (t : Turn)
    → HonestOption committed o
    → Settled committed t
    → Settled committed (or_go_on o t)
or_go_on-Settled committed none t h k = k
or_go_on-Settled committed (some e) t h k = (tt, h)

module _ (config : RetryConfig) (call : Call) (sent : Sent) (attempt : ℕ)
    (world : Surroundings) where
  pub or_with_evidence-Settled :
      (committed : Bool) (o : Option Error) (last : Error) (t : Turn)
      → HonestOption committed o
      → Settled committed t
      → Settled committed (or_with_evidence config call sent attempt world o last t)
  or_with_evidence-Settled committed none last t h k = k
  or_with_evidence-Settled committed (some e) last t h k = (tt, unfold with_response_evidence in h)

module _ (config : RetryConfig) (call : Call) (sent : Sent) (attempt : ℕ)
    (world : Surroundings) where
  pub close-IsQuiet :
      (o : Option AttemptResponse) → All IsQuiet (close config call sent attempt world o)
  unfolding close
  close-IsQuiet none = tt
  close-IsQuiet (some r) = (tt, tt)

  pub terminal-Honest :
      (p : Point) (committed : Bool) (n : ℕ)
      → HonestOption committed (terminal config call sent attempt world p committed n)
  unfolding terminal
  terminal-Honest p committed n = pre_attempt_terminal-Honest (world.pause.look p) committed n call

  pub after_pause-Settled :
      (committed : Bool) (p : Paused)
      → HonestPause committed p
      → Settled committed (after_pause config call sent attempt world committed p)
  unfolding after_pause
  after_pause-Settled committed (waited m) h = ((tt, tt), refl)
  after_pause-Settled committed (stopped e) h = (tt, h)
  after_pause-Settled committed resumed h = (tt, refl)
  after_pause-Settled committed nil_dereference h = (tt, tt)

  pub retry_or_fail-Settled :
      (committed : Bool) (response : Option AttemptResponse) (e : Error)
      → Honest committed e
      → Settled committed (retry_or_fail config call sent attempt world committed response e)
  unfolding retry_or_fail
  retry_or_fail-Settled committed response e h = ground (
    arith,
    after_pause-Settled committed _
        (backoff-Honest config call world.pause e attempt committed h response),
  )

  pub lifted-Honest :
      (before : Bool) (status : ℤ) (e : Error)
      → Judged status e
      → Honest
          (before || response_may_have_been_accepted status)
          (lifted config call sent attempt world before e)
  unfolding lifted
  lifted-Honest true status e h = ground arith
  lifted-Honest false status e h = ground arith

  -- A refusal of this attempt's response, with the floor of the earlier attempts.
  pub response_error-Honest :
      (before : Bool) (r : AttemptResponse) (e : Error)
      → Judged r.status e
      → Honest
          (before || response_may_have_been_accepted r.status)
          (response_error config call sent attempt world before r e)
  unfolding response_error stamped
  response_error-Honest before r e h = ground (
    arith,
    lifted-Honest before r.status (stamped config call sent attempt world e) h,
    lifted-Honest before r.status
        (set_attempt_cause config.owns_transport (stamped config call sent attempt world e))
        (set_attempt_cause-Judged config.owns_transport r.status _ h),
  )

  pub on_response-Settled :
      (before : Bool) (r : AttemptResponse) (v : Verdict)
      → validate_attempt_response r sent ≡ v
      → Settled (before || response_may_have_been_accepted r.status) (
          on_response config call sent attempt world before
            (before || response_may_have_been_accepted r.status)
            r
            v)
  unfolding on_response
  on_response-Settled before r (accepted result) e =
      then_do-Settled _ _ _ (close-IsQuiet (some r)) (
        or_with_evidence-Settled config call sent attempt world _ _ _ _
          (deadline_terminal-Honest _ _ attempt call) (tt, tt))
  on_response-Settled before r (refused e) h =
      let honest = response_error-Honest before r e (validate_judges_delivery r sent e h) in
      then_do-Settled _ _ _ (close-IsQuiet (some r)) (
        or_with_evidence-Settled config call sent attempt world _ _ _ _
          (terminal-Honest Point.after_response _ attempt)
          (retry_or_fail-Settled _ (some r) _ honest))

  pub on_failure-Settled :
      (committed : Bool) (f : AttemptFailure)
      → Settled committed (on_failure config call sent attempt world committed f)
  unfolding on_failure stamped
  on_failure-Settled committed f =
      or_go_on-Settled committed _ _ (terminal-Honest Point.after_failure committed attempt) (
        retry_or_fail-Settled committed none _ (
          set_attempt_cause-Honest config.owns_transport committed _ (classify-Honest committed f)))

  -- The commitment that an outcome leaves behind.
  abbrev pub after : Bool → Bool → AttemptOutcome → Bool
  after before marked o = before || attempt_committed marked o

  pub dispatch-Settled :
      (before marked : Bool) (o : AttemptOutcome)
      → well_formed_outcome o ≡ true
      → Settled
          (after before marked o)
          (dispatch config call sent attempt world before (after before marked o) o)
  unfolding dispatch attempt_committed well_formed_outcome
  dispatch-Settled before marked o w = of_parts o.response o.failure w
    where
      of_parts :
          (r : Option AttemptResponse) (f : Option AttemptFailure)
          → well_formed_outcome (record { response = r; failure = f }) ≡ true
          → Settled (after before marked (record { response = r; failure = f })) (
              dispatch config call sent attempt world before
                (after before marked (record { response = r; failure = f }))
                (record { response = r; failure = f }))
      of_parts (some r) none w = on_response-Settled before r _ refl
      of_parts (some r) (some f) w = absurd (cc)
      of_parts none (some f) w = on_failure-Settled _ f
      of_parts none none w = absurd (cc)

  pub malformed-Honest :
      (committed : Bool) → Honest committed (malformed config call sent attempt world)
  unfolding malformed
  malformed-Honest committed h = absurd h

  pub header_limit-IsQuiet :
      (o : Option AttemptResponse) → All IsQuiet (header_limit config call sent attempt world o)
  unfolding header_limit
  header_limit-IsQuiet none = tt
  header_limit-IsQuiet (some r) = ground arith

  pub settle-Settled :
      (before marked : Bool) (o : AttemptOutcome)
      → Settled (after before marked o) (settle config call sent attempt world before marked o)
  unfolding settle
  settle-Settled before marked o = then_do-Settled _ _ _ (header_limit-IsQuiet o.response) (
      ground (
        arith,
        dispatch-Settled before marked o,
        close-IsQuiet o.response,
        malformed-Honest (after before marked o),
      ))

  -- The outcome that a report leads to.
  abbrev pub settled_outcome : AttemptReport → AttemptOutcome
  settled_outcome report =
      if report.completed
      then record (report.outcome) {
        response = snapshot_response config call sent attempt world report.outcome.response;
      }
      else timed_out config call sent attempt world report.marked

  -- Whether the attempt may have been accepted, by all that is known of it at its end.
  abbrev pub evidence : AttemptReport → Bool
  evidence report = attempt_committed report.marked (settled_outcome report)

  pub timed_out-committed :
      (marked : Bool)
      → attempt_committed marked (timed_out config call sent attempt world marked) ≡ marked
  unfolding attempt_committed pre_commit_failure
  timed_out-committed true = refl
  timed_out-committed false = refl

  pub on_report-Settled :
      (before : Bool) (report : AttemptReport)
      → Settled (before || evidence report) (on_report config call sent attempt world before report)
  unfolding on_report
  on_report-Settled before report = elim (Bool-cases report.completed) [
    | inl e ↦ rw e (settle-Settled before report.marked _)
    | inr e ↦ rw e (
        then_do-Settled _ _ _ (close-IsQuiet report.outcome.response) (
          or_go_on-Settled _ _ _
            (rw timed_out-committed
              (terminal-Honest Point.after_incomplete (before || report.marked) attempt))
            (settle-Settled before report.marked _)))
  ]
