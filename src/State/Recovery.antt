-- ===== src/State/Recovery.antt =====
-- state.go: what the operations that have ended leave for the next one.
use repost_go.Prelude.Int.{ℤ, pos, ◌≤ℤ◌, ◌<ℤ◌, ◌+ℤ◌}
use repost_go.Prelude.{
  ℕ, ◌≡◌, refl, true, false, Option, none, some, List, [], ◌∷◌, All, arith, total,
}
use repost_go.State.Invariant.{Inv, SlotInv, weight, bytes, run-initial-Inv}
use repost_go.State.Lifecycle.{admit_admits}
use repost_go.State.World.{
  Slot, World, Event, admits, begins_call, ends_call, releases, finishes, shrinks, begins_close,
  waits, finishes_close, enter, finish_slot, shrink_slot, at_slot, step, run, initial,
}
use repost_go.State.{
  OperationPermit, AdmitInput, admitted, admit, new_runtime_state,
  initial_operation_reservation_bytes,
}

-- The release of the permit was requested, each of its calls has ended, and no `finishRelease` is
-- still to run.
abbrev pub IsEnded : Slot → Type 0
IsEnded sl = (sl.permit.release_requested ≡ true) × (sl.calls ≡ 0) × (sl.owed ≡ 0)

ended-weight : (sl : Slot) → SlotInv sl → IsEnded sl → (weight sl ≡ 0) × (bytes sl ≡ 0)
ended-weight sl v (r, c, o) = ground (arith, v.no_leak r c)

ended-total :
    (sls : List Slot)
    → All SlotInv sls
    → All IsEnded sls
    → (total weight sls ≡ 0) × (total bytes sls ≡ 0)
ended-total [] v e = (refl, refl)
ended-total (sl ∷ sls) v e = ground (arith, ended-weight sl v.0 e.0, ended-total sls v.1 e.1)

still_open : (w : World) → Inv w → w.state.closing ≡ false → w.state.diagnostics.closed ≡ false
still_open w v h = ground arith

-- The limits of the runtime.
abbrev HasLimits : ℤ → ℤ → World → Type 0
HasLimits m b w = (w.state.max_in_flight_operations ≡ m) × (w.state.max_buffered_bytes ≡ b)

module _ (m b : ℤ) where
  at_slot-HasLimits :
      (w : World) (i : ℕ) (o : Option Slot) (k : Slot → World)
      → HasLimits m b w
      → ((sl : Slot) → HasLimits m b (k sl))
      → HasLimits m b (at_slot w i o k)
  at_slot-HasLimits w i none k h c = h
  at_slot-HasLimits w i (some sl) k h c = c sl

  enter-HasLimits :
      (w : World) (input : AdmitInput)
      → HasLimits m b w
      → HasLimits m b (enter w (admit w.state input))
  unfolding admit
  enter-HasLimits w input h = ground (arith, h)

  finish_slot-HasLimits :
      (w : World) (i : ℕ) (sl : Slot) → HasLimits m b w → HasLimits m b (finish_slot w i sl)
  unfolding finish_slot
  finish_slot-HasLimits w i sl h = ground (arith, h)

  shrink_slot-HasLimits :
      (w : World) (i : ℕ) (n : ℤ) (sl : Slot)
      → HasLimits m b w
      → HasLimits m b (shrink_slot w i n sl)
  unfolding shrink_slot
  shrink_slot-HasLimits w i n sl h = ground (arith, h)

  step-HasLimits : (w : World) (e : Event) → HasLimits m b w → HasLimits m b (step w e)
  unfolding step
  step-HasLimits w (admits input) h = enter-HasLimits w input h
  step-HasLimits w (begins_call i) h = at_slot-HasLimits w i _ _ h λ sl. h
  step-HasLimits w (ends_call i) h = at_slot-HasLimits w i _ _ h λ sl. h
  step-HasLimits w (releases i) h = at_slot-HasLimits w i _ _ h λ sl. h
  step-HasLimits w (finishes i) h = at_slot-HasLimits w i _ _ h λ sl. finish_slot-HasLimits w i sl h
  step-HasLimits w (shrinks i n) h =
      at_slot-HasLimits w i _ _ h λ sl. shrink_slot-HasLimits w i n sl h
  step-HasLimits w begins_close h = ground (arith, h)
  step-HasLimits w waits h = ground (arith, h)
  step-HasLimits w finishes_close h = ground (arith, h)

  run-HasLimits : (es : List Event) (w : World) → HasLimits m b w → HasLimits m b (run w es)
  unfolding run
  run-HasLimits [] w h = h
  run-HasLimits (e ∷ es) w h = run-HasLimits es (step w e) (step-HasLimits w e h)

some_left : (n : ℕ) (a top m : ℤ) → a ≡ pos n → n ≡ 0 → top ≡ m → pos 1 ≤ℤ m → a <ℤ top
some_left n a top m e z t h = ground arith

some_room :
    (n : ℕ) (a top b : ℤ)
    → a ≡ pos n
    → n ≡ 0
    → top ≡ b
    → pos initial_operation_reservation_bytes ≤ℤ b
    → a +ℤ pos initial_operation_reservation_bytes ≤ℤ top
unfolding ◌+ℤ◌
some_room n a top b e z t h = ground arith

-- No schedule of admissions, calls, releases, shrinks and closes leaks capacity: from a new runtime whose
-- limits allow one operation, once each permit ever admitted had its release requested, its calls ended
-- and its `finishRelease` run, and while the runtime is not closing, the next operation is admitted if its
-- deadline context has not ended and the clock reads; its permit holds the initial reservation and is
-- not released.
pub admit-again :
    (max_in_flight max_buffered timeout : ℤ) (es : List Event) (input : AdmitInput) (started : ℤ)
    → pos 1 ≤ℤ max_in_flight
    → pos initial_operation_reservation_bytes ≤ℤ max_buffered
    → All IsEnded (run (initial max_in_flight max_buffered timeout) es).slots
    → (run (initial max_in_flight max_buffered timeout) es).state.closing ≡ false
    → input.deadline_over ≡ false
    → input.clock ≡ some started
    → (p : OperationPermit) × ((admit
          (run (initial max_in_flight max_buffered timeout) es).state
          input).1
        ≡ admitted p)
      × (p.held_bytes ≡ pos initial_operation_reservation_bytes)
      × (p.released ≡ false)
unfolding new_runtime_state
admit-again m b t es input started q r ended stays d c =
    let w : World = run (initial m b t) es in
    let v : Inv w = run-initial-Inv m b t es (omega (arith, q)) (omega (arith, r)) in
    let (top, room) = run-HasLimits m b es (initial m b t) (refl, refl) in
    let (none_live, none_held) = ended-total w.slots v.slots_ok ended in
    let (p, e, held, fresh, deadline) =
      admit_admits w.state input started stays (still_open w v stays)
        (some_left (total weight w.slots) w.state.diagnostics.in_flight_operations
          w.state.max_in_flight_operations m v.in_flight none_live top q)
        (some_room (total bytes w.slots) w.state.diagnostics.buffered_bytes
          w.state.max_buffered_bytes b v.buffered none_held room r)
        d c in
    (p, e, held, fresh)
