-- ===== src/Observer/Schedules.antt =====
-- observer.go: the dispatcher under schedules of its callers and its goroutine.
use repost_go.Observer.{
  Dispatcher, Place, emit, poll, select, claim_delivery, return_callback, settle, complete,
  drop_pending, begin_close, stop_inactive,
}
use repost_go.Prelude.{ℕ, Bool, true, false, List, [], ◌∷◌}

-- `runs` is one step of the goroutine; of its flags the first picks the case of a select where both are
-- ready, the second tells of a callback that panics.
pub data Event : Type 0 where
  emits : ℕ → Event
  runs : Bool → Bool → Event
  begins_close : Bool → Event
  stops : Event

unfoldable pub advance : Dispatcher → Place → Bool → Bool → Dispatcher
advance d Place.polls a b = poll d
advance d Place.selects a b = select d a
advance d (Place.claims e) a b = claim_delivery d e
advance d (Place.calls e) a b = return_callback d e b
advance d Place.settles a b = settle d
advance d Place.declines a b = complete d 1 Place.polls
advance d (Place.drops n) a b = drop_pending d n d.events
advance d (Place.completes n) a b = complete d n Place.finished
advance d Place.finished a b = d

unfoldable pub step : Dispatcher → Event → Dispatcher
step d (emits e) = emit d e
step d (runs a b) = advance d d.place a b
step d (begins_close self) = begin_close d self
step d stops = stop_inactive d

unfoldable pub run : Dispatcher → List Event → Dispatcher
run d [] = d
run d (e ∷ es) = run (step d e) es

-- The events that were emitted, in their order.
abbrev pub emitted : List Event → List ℕ
emitted [] = []
emitted (emits e ∷ es) = e ∷ emitted es
emitted (_ ∷ es) = emitted es

abbrev pub is_calling : Place → Bool
is_calling (Place.calls e) = true
is_calling Place.settles = true
is_calling _ = false
