-- ===== src/State/Lifecycle.antt =====
-- state.go: which operations `admit` lets in, and what the close handshake leaves behind.
use repost_go.Errors.{ErrorCode, operation_error}
use repost_go.Prelude.Int.{
  ℤ, pos, ◌≤ℤ◌, ◌<ℤ◌, ◌+ℤ◌, ◌-ℤ◌, +ℤ_parts, -ℤ_parts, ltb_ℤ, max_ℤ, min_ℤ, sat64, IsInt64,
}
use repost_go.Prelude.{ℕ, ◌≡◌, refl, true, false, Option, none, some, List, [], ◌∷◌, arith, total}
use repost_go.State.Counters.{add_nanos_saturated_clamps}
use repost_go.State.Invariant.{Inv, weight, bytes, run-Inv, run-initial-Inv}
use repost_go.State.World.{
  Slot, World, Event, admits, begins_call, ends_call, releases, finishes, shrinks, begins_close,
  waits, finishes_close, enter, finish_slot, shrink_slot, at_slot, step, run, initial,
}
use repost_go.State.{
  RuntimeState, OperationPermit, AdmitInput, Admission, refused, admitted, admit,
  exclusive_deadline_of, initial_operation_reservation_bytes,
}

-- For int64 arguments: the exclusive deadline of an operation is its start plus its timeout, clamped
-- to the int64 range, or the caller's own deadline, clamped too, if that is earlier; a caller's
-- deadline in the past counts as now.
pub exclusive_deadline_lem :
    (started timeout until : ℤ)
    → IsInt64 started
    → IsInt64 timeout
    → IsInt64 until
    → (exclusive_deadline_of started timeout none ≡ sat64 (started +ℤ timeout))
      × (exclusive_deadline_of started timeout (some until)
          ≡ min_ℤ (sat64 (started +ℤ timeout)) (sat64 (started +ℤ max_ℤ (pos 0) until)))
unfolding exclusive_deadline_of
exclusive_deadline_lem started timeout until a b c = ground (
  arith,
  add_nanos_saturated_clamps started timeout a b,
  add_nanos_saturated_clamps started until a c,
  add_nanos_saturated_clamps started (pos 0) a (omega arith),
)

abbrev IsRefusal : Admission → ErrorCode → Type 0
IsRefusal r code = r ≡ refused (operation_error code)

-- The test of `admit` on the buffered bytes, both ways.
room_test :
    (b m r : ℤ)
    → (ltb_ℤ (m -ℤ r) b ≡ false → b +ℤ r ≤ℤ m) × (b +ℤ r ≤ℤ m → ltb_ℤ (m -ℤ r) b ≡ false)
room_test b m r = (
  λ h. ground (arith, -ℤ_parts m r, +ℤ_parts b r),
  λ h. ground (arith, -ℤ_parts m r, +ℤ_parts b r),
)

-- An operation is admitted where the runtime is open, both limits have room for it, the deadline
-- context has not ended and the clock reads: its permit holds the initial reservation, is not
-- released, and carries the exclusive deadline of the runtime's timeout and the caller's deadline.
pub admit_admits :
    (s : RuntimeState) (input : AdmitInput) (started : ℤ)
    → s.closing ≡ false
    → s.diagnostics.closed ≡ false
    → s.diagnostics.in_flight_operations <ℤ s.max_in_flight_operations
    → s.diagnostics.buffered_bytes +ℤ pos initial_operation_reservation_bytes
      ≤ℤ s.max_buffered_bytes
    → input.deadline_over ≡ false
    → input.clock ≡ some started
    → (p : OperationPermit) × ((admit s input).1 ≡ admitted p)
      × (p.held_bytes ≡ pos initial_operation_reservation_bytes)
      × (p.released ≡ false)
      × (p.exclusive_deadline
          ≡ exclusive_deadline_of started s.operation_timeout input.until_parent_deadline)
unfolding admit
admit_admits s input started a b c d e f = (
  record {
    active_calls = pos 0;
    release_requested = false;
    held_bytes = pos initial_operation_reservation_bytes;
    started_nanos = started;
    exclusive_deadline =
        exclusive_deadline_of started s.operation_timeout input.until_parent_deadline;
    released = false;
  },
  ground (
    arith,
    (room_test s.diagnostics.buffered_bytes s.max_buffered_bytes
          (pos initial_operation_reservation_bytes)).1
        d,
  ),
  refl,
  refl,
  refl,
)

-- An operation is admitted only while the runtime is open, both limits have room for it, and the
-- deadline context has not ended.
pub admit-room :
    (s : RuntimeState) (input : AdmitInput) (p : OperationPermit)
    → (admit s input).1 ≡ admitted p
    → (s.closing ≡ false)
      × (s.diagnostics.closed ≡ false)
      × (s.diagnostics.in_flight_operations <ℤ s.max_in_flight_operations)
      × (s.diagnostics.buffered_bytes +ℤ pos initial_operation_reservation_bytes
          ≤ℤ s.max_buffered_bytes)
      × (input.deadline_over ≡ false)
unfolding admit
admit-room s input p h = ground (
  arith,
  (room_test s.diagnostics.buffered_bytes s.max_buffered_bytes
      (pos initial_operation_reservation_bytes)).0,
)

at_slot-closed :
    (w : World) (i : ℕ) (o : Option Slot) (k : Slot → World)
    → w.state.diagnostics.closed ≡ true
    → ((sl : Slot) → (k sl).state.diagnostics.closed ≡ true)
    → (at_slot w i o k).state.diagnostics.closed ≡ true
at_slot-closed w i none k h c = h
at_slot-closed w i (some sl) k h c = c sl

enter-closed :
    (w : World) (input : AdmitInput)
    → w.state.diagnostics.closed ≡ true
    → (enter w (admit w.state input)).state.diagnostics.closed ≡ true
unfolding admit
enter-closed w input h = ground arith

finish_slot-closed :
    (w : World) (i : ℕ) (sl : Slot)
    → w.state.diagnostics.closed ≡ true
    → (finish_slot w i sl).state.diagnostics.closed ≡ true
unfolding finish_slot
finish_slot-closed w i sl h = ground arith

shrink_slot-closed :
    (w : World) (i : ℕ) (n : ℤ) (sl : Slot)
    → w.state.diagnostics.closed ≡ true
    → (shrink_slot w i n sl).state.diagnostics.closed ≡ true
unfolding shrink_slot
shrink_slot-closed w i n sl h = ground arith

step-closed :
    (w : World) (e : Event)
    → w.state.diagnostics.closed ≡ true
    → (step w e).state.diagnostics.closed ≡ true
unfolding step
step-closed w (admits input) h = enter-closed w input h
step-closed w (begins_call i) h = at_slot-closed w i _ _ h λ sl. h
step-closed w (ends_call i) h = at_slot-closed w i _ _ h λ sl. h
step-closed w (releases i) h = at_slot-closed w i _ _ h λ sl. h
step-closed w (finishes i) h = at_slot-closed w i _ _ h λ sl. finish_slot-closed w i sl h
step-closed w (shrinks i n) h = at_slot-closed w i _ _ h λ sl. shrink_slot-closed w i n sl h
step-closed w begins_close h = ground arith
step-closed w waits h = ground arith
step-closed w finishes_close h = ground arith

run-closed :
    (es : List Event) (w : World)
    → w.state.diagnostics.closed ≡ true
    → (run w es).state.diagnostics.closed ≡ true
unfolding run
run-closed [] w h = h
run-closed (e ∷ es) w h = run-closed es (step w e) (step-closed w e h)

held-drained : (xs : List Slot) → total weight xs ≡ 0 → total bytes xs ≡ 0
held-drained [] h = refl
held-drained (x ∷ xs) h = ground (arith, held-drained xs)

closed-empty :
    (w : World) (input : AdmitInput)
    → Inv w
    → w.state.diagnostics.closed ≡ true
    → (w.state.diagnostics.in_flight_operations ≡ pos 0)
      × (w.state.diagnostics.buffered_bytes ≡ pos 0)
      × ((admit w.state input).1 ≡ refused (operation_error ErrorCode.closed))
unfolding admit
closed-empty w input v h = ground (arith, held-drained w.slots)

-- A runtime that was closed, after any schedule, holds no operation and no bytes; it stays closed
-- under any further schedule, and refuses every admission with CLOSED and NOT_SENT.
pub closed_is_final :
    (max_in_flight max_buffered timeout : ℤ) (es later : List Event) (input : AdmitInput)
    → pos 0 ≤ℤ max_in_flight
    → pos 0 ≤ℤ max_buffered
    → (run (initial max_in_flight max_buffered timeout) es).state.diagnostics.closed ≡ true
    → let w = run (run (initial max_in_flight max_buffered timeout) es) later in
      (w.state.diagnostics.closed ≡ true)
      × (w.state.diagnostics.in_flight_operations ≡ pos 0)
      × (w.state.diagnostics.buffered_bytes ≡ pos 0)
      × ((admit w.state input).1 ≡ refused (operation_error ErrorCode.closed))
closed_is_final m b t es later input p q h =
    let stays = run-closed later (run (initial m b t) es) h in
    let (a, c, d) = closed-empty _ input (run-Inv later _ (run-initial-Inv m b t es p q)) stays in
    (stays, a, c, d)
