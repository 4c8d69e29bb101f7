-- ===== src/Tests/Events.antt =====
-- observer.go: the theorems on the dispatcher at concrete inputs.
use repost_go.Observer.Closing.{run-delivered, run-alone, alone}
use repost_go.Observer.Schedules.{
  Event, emits, runs, begins_close, stops, run, step, advance, emitted,
}
use repost_go.Observer.Accounts.{Inv}
use repost_go.Observer.Order.{run-new_dispatcher-Inv, is_flushed_lem}
use repost_go.Observer.Thinned.{Thinned, onto}
use repost_go.Observer.{
  Dispatcher, Place, new_dispatcher, emit, poll, receive, select, claim_delivery, return_callback,
  settle, begin_close, stop_inactive, is_flushed,
}
use repost_go.Prelude.Int.{pos, ◌+ℤ◌, ◌-ℤ◌}
use repost_go.Prelude.{◌≡◌, refl, true, false, List, [], ◌∷◌, arith}

-- Two events, of which the first one's callback panics.
abbrev deliveries : List Event
deliveries =
    emits 7
    ∷ emits 8
    ∷ runs true false
    ∷ runs true false
    ∷ runs true false
    ∷ runs true true
    ∷ runs true false
    ∷ runs true false
    ∷ runs true false
    ∷ runs true false
    ∷ runs true false
    ∷ runs true false
    ∷ []

-- A close with one event still in the queue.
abbrev closing : List Event
closing = emits 7 ∷ begins_close false ∷ stops ∷ emits 8 ∷ []

run-new_dispatcher-Inv_example : Inv (emitted closing) (run new_dispatcher closing)
run-new_dispatcher-Inv_example = run-new_dispatcher-Inv closing

delivers_both : is_flushed (run new_dispatcher deliveries) ≡ true
unfolding run step advance emit poll receive select claim_delivery return_callback settle ◌+ℤ◌ ◌-ℤ◌
delivers_both = refl

is_flushed_lem_example :
    Thinned
      (run new_dispatcher deliveries).dropped
      (emitted deliveries)
      (onto (run new_dispatcher deliveries).delivered [])
is_flushed_lem_example = is_flushed_lem deliveries delivers_both

is_closing :
    ((run new_dispatcher closing).closing ≡ true)
    × ((run new_dispatcher closing).stop ≡ true)
    × ((run new_dispatcher closing).place ≡ Place.polls)
unfolding run step emit begin_close stop_inactive ◌+ℤ◌
is_closing = (refl, refl, refl)

abbrev closed : Dispatcher
closed = record new_dispatcher { events = 7 ∷ []; pending = pos 1; closing = true; stop = true }

run-delivered_example : (run closed (runs true false ∷ emits 9 ∷ [])).delivered ≡ []
run-delivered_example = run-delivered (runs true false ∷ emits 9 ∷ []) closed refl refl

run-alone_example : (run closed (alone (true ∷ false ∷ true ∷ true ∷ []))).place ≡ Place.finished
run-alone_example = run-alone (true ∷ false ∷ true ∷ true ∷ []) closed refl refl (omega arith)
