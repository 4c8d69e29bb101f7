-- ===== src/State/Invariant.antt =====
-- state.go: the accounts of the runtime state and the permits, under schedules.
use repost_go.Prelude.Int.{ℤ, pos, pos_part, ◌≤ℤ◌, ◌+ℤ◌, ◌-ℤ◌}
use repost_go.Prelude.{
  ℕ, ◌+◌, ◌-◌, ◌≡◌, refl, true, false, Option, none, some, List, [], ◌∷◌, arith, All, All-get_elem?,
  All-set, total, total-set, get_elem?, ◌==◌, if◌then◌else◌,
}
use repost_go.State.Permits.{shrink_request}
use repost_go.State.World.{
  Slot, World, Event, admits, begins_call, ends_call, releases, finishes, shrinks, begins_close,
  waits, finishes_close, owes, put, enter, begin_slot, end_slot, release_slot, finish_slot,
  shrink_slot, at_slot, step, run, initial,
}
use repost_go.State.{AdmitInput, admit, initial_operation_reservation_bytes, new_runtime_state}

-- A permit is released at most once, and then owes or has made one `finishRelease`; it is released
-- if its release was requested and no call is left.
pub record SlotInv (sl : Slot) : Type 0 where
  pub calls_match : sl.permit.active_calls ≡ pos sl.calls
  pub once : sl.owed + sl.finished ≡ owes sl.permit.released
  pub requested : sl.permit.released ≡ true → sl.permit.release_requested ≡ true
  pub no_leak : sl.permit.release_requested ≡ true → sl.calls ≡ 0 → sl.permit.released ≡ true
  pub held_nonneg : pos 0 ≤ℤ sl.permit.held_bytes
  pub held_cap : sl.permit.held_bytes ≤ℤ pos initial_operation_reservation_bytes
  pub unshrunk : sl.shrunk ≡ false → sl.permit.held_bytes ≡ pos initial_operation_reservation_bytes

-- What a permit still counts for: one operation and its bytes, until `finishRelease` has run.
abbrev pub weight : Slot → ℕ
weight sl = 1 - sl.finished

abbrev pub bytes : Slot → ℕ
bytes sl = if sl.finished == 0 then pos_part sl.permit.held_bytes else 0

abbrev pub live : World → ℕ
live w = total weight w.slots

abbrev pub held : World → ℕ
held w = total bytes w.slots

begin_slot-SlotInv : (sl : Slot) → SlotInv sl → SlotInv (begin_slot sl)
unfolding begin_slot ◌+ℤ◌
begin_slot-SlotInv sl v = ground arith

end_slot-SlotInv : (sl : Slot) → SlotInv sl → SlotInv (end_slot sl)
unfolding end_slot ◌-ℤ◌
end_slot-SlotInv sl v = ground arith

release_slot-SlotInv : (sl : Slot) → SlotInv sl → SlotInv (release_slot sl)
unfolding release_slot
release_slot-SlotInv sl v = ground arith

pub record Inv (w : World) : Type 0 where
  pub slots_ok : All SlotInv w.slots
  pub in_flight : w.state.diagnostics.in_flight_operations ≡ pos (live w)
  pub wait_group : w.state.wg ≡ pos (live w)
  pub buffered : w.state.diagnostics.buffered_bytes ≡ pos (held w)
  pub operations_cap : pos (live w) ≤ℤ w.state.max_in_flight_operations
  pub bytes_cap : pos (held w) ≤ℤ w.state.max_buffered_bytes
  pub drained : w.waited ≡ true → (w.state.closing ≡ true) × (live w ≡ 0)
  pub closed_waited : w.state.diagnostics.closed ≡ true → w.waited ≡ true

admit-Inv : (w : World) (input : AdmitInput) → Inv w → Inv (enter w (admit w.state input))
unfolding admit ◌+ℤ◌ ◌-ℤ◌
admit-Inv w input v = ground arith

-- A section that changes a permit and neither its bytes nor its finishing.
put-Inv :
    (w : World) (i : ℕ) (sl sl' : Slot)
    → get_elem? w.slots i ≡ some sl
    → SlotInv sl'
    → weight sl' ≡ weight sl
    → bytes sl' ≡ bytes sl
    → Inv w
    → Inv (put w i sl')
put-Inv w i sl sl' e s a b v = ground (
  arith,
  total-set weight w.slots i sl sl' e,
  total-set bytes w.slots i sl sl' e,
  All-set SlotInv w.slots i sl' v.slots_ok s,
)

finish_slot-Inv :
    (w : World) (i : ℕ) (sl : Slot)
    → get_elem? w.slots i ≡ some sl
    → SlotInv sl
    → Inv w
    → Inv (finish_slot w i sl)
unfolding finish_slot ◌-ℤ◌
finish_slot-Inv w i sl e s v =
    let sl' : Slot = record sl { owed = sl.owed - 1; finished = sl.finished + 1 } in
    ground (
      arith,
      total-set weight w.slots i sl sl' e,
      total-set bytes w.slots i sl sl' e,
      All-set SlotInv w.slots i sl' v.slots_ok,
    )

shrink_slot-Inv :
    (w : World) (i : ℕ) (n : ℤ) (sl : Slot)
    → get_elem? w.slots i ≡ some sl
    → SlotInv sl
    → Inv w
    → Inv (shrink_slot w i n sl)
unfolding shrink_slot ◌-ℤ◌
shrink_slot-Inv w i n sl e s v =
    let sl' : Slot = record sl { permit = (shrink_request sl.permit w.state n).0; shrunk = true } in
    ground (
      arith,
      total-set weight w.slots i sl sl' e,
      total-set bytes w.slots i sl sl' e,
      All-set SlotInv w.slots i sl' v.slots_ok,
    )

-- An event at a slot that is there, or at none.
at_slot-Inv :
    (w : World) (i : ℕ) (o : Option Slot) (k : Slot → World)
    → get_elem? w.slots i ≡ o
    → Inv w
    → ((sl : Slot) → get_elem? w.slots i ≡ some sl → SlotInv sl → Inv (k sl))
    → Inv (at_slot w i o k)
at_slot-Inv w i none k e v h = v
at_slot-Inv w i (some sl) k e v h = h sl e (All-get_elem? SlotInv w.slots i sl v.slots_ok e)

begin_slot_counts :
    (sl : Slot) → (weight (begin_slot sl) ≡ weight sl) × (bytes (begin_slot sl) ≡ bytes sl)
unfolding begin_slot
begin_slot_counts sl = (refl, refl)

end_slot_counts :
    (sl : Slot) → (weight (end_slot sl) ≡ weight sl) × (bytes (end_slot sl) ≡ bytes sl)
unfolding end_slot
end_slot_counts sl = ground arith

release_slot_counts :
    (sl : Slot) → (weight (release_slot sl) ≡ weight sl) × (bytes (release_slot sl) ≡ bytes sl)
unfolding release_slot
release_slot_counts sl = ground arith

step-Inv : (w : World) (e : Event) → Inv w → Inv (step w e)
unfolding step
step-Inv w (admits input) v = admit-Inv w input v
step-Inv w (begins_call i) v =
    at_slot-Inv w i _ _ refl v λ sl e s.
      let c = begin_slot_counts sl in put-Inv w i sl _ e (begin_slot-SlotInv sl s) c.0 c.1 v
step-Inv w (ends_call i) v =
    at_slot-Inv w i _ _ refl v
      λ sl e s. let c = end_slot_counts sl in put-Inv w i sl _ e (end_slot-SlotInv sl s) c.0 c.1 v
step-Inv w (releases i) v = at_slot-Inv w i _ _ refl v λ sl e s.
    let c = release_slot_counts sl in put-Inv w i sl _ e (release_slot-SlotInv sl s) c.0 c.1 v
step-Inv w (finishes i) v = at_slot-Inv w i _ _ refl v λ sl e s. finish_slot-Inv w i sl e s v
step-Inv w (shrinks i n) v = at_slot-Inv w i _ _ refl v λ sl e s. shrink_slot-Inv w i n sl e s v
step-Inv w begins_close v = ground arith
step-Inv w waits v = ground arith
step-Inv w finishes_close v = ground arith

pub run-Inv : (es : List Event) (w : World) → Inv w → Inv (run w es)
unfolding run
run-Inv [] w v = v
run-Inv (e ∷ es) w v = run-Inv es (step w e) (step-Inv w e v)

-- Under every schedule of admissions, calls, releases and close sections, from a new runtime with
-- non-negative limits: the in-flight count, the WaitGroup and the buffered bytes are exactly the
-- sums over the permits not yet finished, both stay within their limits, each permit owes or has
-- made one `finishRelease` if it is released and none if not, it is released if that was requested
-- and none of its calls is left, and the runtime is closed only with no operation left.
pub run-initial-Inv :
    (max_in_flight max_buffered timeout : ℤ) (es : List Event)
    → pos 0 ≤ℤ max_in_flight
    → pos 0 ≤ℤ max_buffered
    → Inv (run (initial max_in_flight max_buffered timeout) es)
unfolding new_runtime_state
run-initial-Inv max_in_flight max_buffered timeout es a b =
    run-Inv es (initial max_in_flight max_buffered timeout) (record {
      slots_ok = tt;
      in_flight = refl;
      wait_group = refl;
      buffered = refl;
      operations_cap = a;
      bytes_cap = b;
      drained = λ e. cc;
      closed_waited = λ e. cc;
    })
