-- ===== src/Tests/Runtime.antt =====
-- state.go: the theorems on the runtime state at concrete inputs.
use repost_go.Errors.{ErrorCode, operation_error}
use repost_go.Prelude.Int.{ℤ, pos, ◌+ℤ◌, ◌-ℤ◌, ◌<ℤ◌, ◌≤ℤ◌, sat64, min_ℤ, max_ℤ}
use repost_go.Prelude.{All, ◌+◌, ◌≡◌, refl, true, false, none, some, List, [], ◌∷◌, arith, min}
use repost_go.State.Counters.{saturating_add_exact, add_nanos_saturated_clamps}
use repost_go.State.Invariant.{Inv, run-initial-Inv}
use repost_go.State.Lifecycle.{exclusive_deadline_lem, admit-room, closed_is_final}
use repost_go.State.Recovery.{admit-again, IsEnded}
use repost_go.State.Permits.{
  begin_close, finish_close, operations_settled, finish_release, release, begin_call, end_call,
  shrink_request,
}
use repost_go.State.World.{
  Event, admits, begins_call, ends_call, releases, finishes, shrinks, begins_close, waits,
  finishes_close, initial, run, step, begin_slot, end_slot, release_slot, finish_slot, shrink_slot,
}
use repost_go.State.{
  AdmitInput, OperationPermit, RuntimeState, refused, admitted, admit, new_runtime_state,
  saturating_add, add_nanos_saturated, exclusive_deadline_of, initial_operation_reservation_bytes,
  maximum_diagnostic_counter,
}

abbrev now : AdmitInput
now = record {
  deadline_over = false;
  clock = some (pos 1_000);
  until_parent_deadline = some (pos 50);
}

abbrev open_runtime : RuntimeState
open_runtime = new_runtime_state (pos 2) (pos 8_000_000) (pos 100)

-- An operation with a call still running when it is released, and a close that waits for it.
abbrev schedule : List Event
schedule =
    admits now
    ∷ begins_call 0
    ∷ shrinks 0 (pos 300)
    ∷ releases 0
    ∷ begins_close
    ∷ waits
    ∷ ends_call 0
    ∷ finishes 0
    ∷ waits
    ∷ finishes_close
    ∷ []

run-initial-Inv_example : Inv (run (initial (pos 2) (pos 8_000_000) (pos 100)) schedule)
run-initial-Inv_example =
    run-initial-Inv (pos 2) (pos 8_000_000) (pos 100) schedule (omega arith) (omega arith)

closes : (run (initial (pos 2) (pos 8_000_000) (pos 100)) schedule).state.diagnostics.closed ≡ true
unfolding run step admit begin_slot end_slot release_slot finish_slot shrink_slot new_runtime_state
    begin_close finish_close operations_settled finish_release release begin_call end_call
    shrink_request ◌+ℤ◌ ◌-ℤ◌ exclusive_deadline_of add_nanos_saturated
closes = refl

closed_is_final_example :
    let w = run (run (initial (pos 2) (pos 8_000_000) (pos 100)) schedule) (admits now ∷ []) in
    (w.state.diagnostics.closed ≡ true)
    × (w.state.diagnostics.in_flight_operations ≡ pos 0)
    × (w.state.diagnostics.buffered_bytes ≡ pos 0)
    × ((admit w.state now).1 ≡ refused (operation_error ErrorCode.closed))
closed_is_final_example =
    closed_is_final (pos 2) (pos 8_000_000) (pos 100) schedule (admits now ∷ []) now (omega arith)
      (omega arith) closes

-- An operation that is over: its call ended behind its release.
abbrev ended : List Event
ended =
    admits now ∷ begins_call 0 ∷ shrinks 0 (pos 300) ∷ releases 0 ∷ ends_call 0 ∷ finishes 0 ∷ []

ended-IsEnded : All IsEnded (run (initial (pos 1) (pos 4_000_000) (pos 100)) ended).slots
unfolding run step admit begin_slot end_slot release_slot finish_slot shrink_slot new_runtime_state
    finish_release release begin_call end_call shrink_request ◌+ℤ◌ ◌-ℤ◌ exclusive_deadline_of
    add_nanos_saturated
ended-IsEnded = ((refl, refl, refl), tt)

ended_open : (run (initial (pos 1) (pos 4_000_000) (pos 100)) ended).state.closing ≡ false
unfolding run step admit begin_slot end_slot release_slot finish_slot shrink_slot new_runtime_state
    finish_release release begin_call end_call shrink_request ◌+ℤ◌ ◌-ℤ◌ exclusive_deadline_of
    add_nanos_saturated
ended_open = refl

admit-again_example :
    (p : OperationPermit) × ((admit
        (run (initial (pos 1) (pos 4_000_000) (pos 100)) ended).state
        now).1
      ≡ admitted p)
    × (p.held_bytes ≡ pos initial_operation_reservation_bytes)
    × (p.released ≡ false)
admit-again_example =
    admit-again (pos 1) (pos 4_000_000) (pos 100) ended now (pos 1_000) (omega arith) (omega arith)
      ended-IsEnded ended_open refl refl

abbrev permit : OperationPermit
permit = record {
  active_calls = pos 0;
  release_requested = false;
  held_bytes = pos 2_359_296;
  started_nanos = pos 1_000;
  exclusive_deadline = pos 1_050;
  released = false;
}

admits_permit : (admit open_runtime now).1 ≡ admitted permit
unfolding admit new_runtime_state ◌+ℤ◌ ◌-ℤ◌ exclusive_deadline_of add_nanos_saturated
admits_permit = refl

admit-room_example :
    (open_runtime.closing ≡ false)
    × (open_runtime.diagnostics.closed ≡ false)
    × (open_runtime.diagnostics.in_flight_operations <ℤ open_runtime.max_in_flight_operations)
    × (open_runtime.diagnostics.buffered_bytes +ℤ pos initial_operation_reservation_bytes
        ≤ℤ open_runtime.max_buffered_bytes)
    × (now.deadline_over ≡ false)
admit-room_example = admit-room open_runtime now permit admits_permit

exclusive_deadline_lem_example :
    (exclusive_deadline_of (pos 7) (pos 100) none ≡ sat64 (pos 7 +ℤ pos 100))
    × (exclusive_deadline_of (pos 7) (pos 100) (some (ℤ.negsuc 3))
        ≡ min_ℤ (sat64 (pos 7 +ℤ pos 100)) (sat64 (pos 7 +ℤ max_ℤ (pos 0) (ℤ.negsuc 3))))
exclusive_deadline_lem_example =
    exclusive_deadline_lem (pos 7) (pos 100) (ℤ.negsuc 3) (omega arith) (omega arith) (omega arith)

saturating_add_exact_example :
    saturating_add 9_007_199_254_740_990 (pos 5)
    ≡ min (9_007_199_254_740_990 + 5) maximum_diagnostic_counter
saturating_add_exact_example = saturating_add_exact 9_007_199_254_740_990 5 (omega arith)

add_nanos_saturated_clamps_example :
    add_nanos_saturated (pos 9_223_372_036_854_775_800) (pos 100)
    ≡ sat64 (pos 9_223_372_036_854_775_800 +ℤ pos 100)
add_nanos_saturated_clamps_example =
    add_nanos_saturated_clamps (pos 9_223_372_036_854_775_800) (pos 100) (omega arith) (omega arith)
