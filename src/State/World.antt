-- ===== src/State/World.antt =====
-- state.go, and its callers in runtime.go and operation.go: the runtime state with all permits
-- ever admitted, and the schedules of their sections. `Send` releases its permit once it returns,
-- each bounded call runs between `beginCall` and `endCall` on a goroutine of its own, `sendAdmitted`
-- shrinks the request at most once, and before the release. An event that the callers do not
-- produce in a world changes nothing there.
use repost_go.Prelude.Int.{ℤ}
use repost_go.Prelude.{
  ℕ, ◌+◌, ◌-◌, Bool, true, false, ◌&&◌, ◌||◌, Option, none, some, List, [], ◌∷◌, ltb, get_elem?,
  set, if◌then◌else◌,
}
use repost_go.State.Permits.{
  release, begin_call, end_call, finish_release, shrink_request, begin_close, finish_close,
  operations_settled,
}
use repost_go.State.{
  RuntimeState, OperationPermit, AdmitInput, Admission, refused, admitted, admit, new_runtime_state,
}

-- A permit with what its goroutines are in the middle of: the calls begun and not ended, the
-- `finishRelease` calls owed and made, and whether the request was shrunk.
pub record Slot : Type 0 where
  pub permit : OperationPermit
  pub calls : ℕ
  pub owed : ℕ
  pub finished : ℕ
  pub shrunk : Bool

-- `waited` tells that the closing goroutine is past `waitForOperations`.
pub record World : Type 0 where
  pub state : RuntimeState
  pub slots : List Slot
  pub waited : Bool

pub data Event : Type 0 where
  admits : AdmitInput → Event
  begins_call ends_call releases finishes : ℕ → Event
  shrinks : ℕ → ℤ → Event
  begins_close waits finishes_close : Event

abbrev pub new_slot : OperationPermit → Slot
new_slot p = record { permit = p; calls = 0; owed = 0; finished = 0; shrunk = false }

abbrev pub owes : Bool → ℕ
owes true = 1
owes false = 0

abbrev pub put : World → ℕ → Slot → World
put w i sl = record w { slots = set w.slots i sl }

abbrev pub enter : World → RuntimeState × Admission → World
enter w (s, refused e) = record w { state = s }
enter w (s, admitted p) = record w { state = s; slots = new_slot p ∷ w.slots }

unfoldable pub begin_slot : Slot → Slot
unfolding begin_call
begin_slot sl = record sl { permit = begin_call sl.permit; calls = sl.calls + 1 }

unfoldable pub end_slot : Slot → Slot
unfolding end_call
end_slot sl =
    if ltb 0 sl.calls
    then (let (p, finalize) = end_call sl.permit in
        record sl { permit = p; calls = sl.calls - 1; owed = sl.owed + owes finalize })
    else sl

unfoldable pub release_slot : Slot → Slot
unfolding release
release_slot sl =
    let (p, finalize) = release sl.permit in
    record sl { permit = p; owed = sl.owed + owes finalize }

unfoldable pub finish_slot : World → ℕ → Slot → World
unfolding finish_release
finish_slot w i sl =
    if ltb 0 sl.owed
    then record (put w i (record sl { owed = sl.owed - 1; finished = sl.finished + 1 })) {
      state = finish_release sl.permit w.state;
    }
    else w

unfoldable pub shrink_slot : World → ℕ → ℤ → Slot → World
unfolding shrink_request
shrink_slot w i n sl =
    if sl.shrunk || sl.permit.release_requested
    then w
    else (let (p, s) = shrink_request sl.permit w.state n in
        record (put w i (record sl { permit = p; shrunk = true })) { state = s })

abbrev pub at_slot : World → ℕ → Option Slot → (Slot → World) → World
at_slot w i none k = w
at_slot w i (some sl) k = k sl

unfoldable pub step : World → Event → World
unfolding begin_close finish_close
step w (admits input) = enter w (admit w.state input)
step w (begins_call i) = at_slot w i (get_elem? w.slots i) λ sl. put w i (begin_slot sl)
step w (ends_call i) = at_slot w i (get_elem? w.slots i) λ sl. put w i (end_slot sl)
step w (releases i) = at_slot w i (get_elem? w.slots i) λ sl. put w i (release_slot sl)
step w (finishes i) = at_slot w i (get_elem? w.slots i) (finish_slot w i)
step w (shrinks i n) = at_slot w i (get_elem? w.slots i) (shrink_slot w i n)
step w begins_close = record w { state = (begin_close w.state).0 }
step w waits =
    if w.state.closing && operations_settled w.state then record w { waited = true } else w
step w finishes_close = if w.waited then record w { state = finish_close w.state } else w

unfoldable pub run : World → List Event → World
run w [] = w
run w (e ∷ es) = run (step w e) es

abbrev pub initial : ℤ → ℤ → ℤ → World
initial max_in_flight max_buffered timeout = record {
  state = new_runtime_state max_in_flight max_buffered timeout;
  slots = [];
  waited = false;
}
