-- ===== src/Observer.antt =====
-- observer.go: the dispatcher of observer events. Events are handed over through a bounded queue to
-- one goroutine, `run`, which is modelled by the place where it stands. A function here is one section
-- under the mutex, or one operation on a channel. The event itself is a number.
pub mod Thinned
pub mod Schedules
pub mod Accounts
pub mod Order
pub mod Closing
use repost_go.Prelude.Int.{ℤ, pos, ◌+ℤ◌, ◌-ℤ◌}
use repost_go.Prelude.{
  ℕ, zero, suc, ◌+◌, Bool, true, false, not, ◌&&◌, List, [], ◌∷◌, ◌++◌, length, ltb, ◌==◌,
  if◌then◌else◌,
}

abbrev pub observer_queue_capacity : ℕ
observer_queue_capacity = 1_024

-- Where `run` stands: before the first select, before the second one, with an event before
-- `claimDelivery`, in the observer's callback, before the section that ends `deliver`, before the
-- `complete` of an event that was not claimed, in the loop of `dropPending`, before the `complete` that
-- ends it, and behind `close(d.done)`.
pub data Place : Type 0 where
  polls selects : Place
  claims calls : ℕ → Place
  settles declines : Place
  drops completes : ℕ → Place
  finished : Place

-- `stop` tells that the channel is closed. `dropped` and `failures` are the sums of what was handed to
-- `addDroppedObserverEvents` and `addObserverFailure`, `delivered` the events whose callback has
-- returned, the last one first.
pub record Dispatcher : Type 0 where
  pub events : List ℕ
  pub stop : Bool
  pub pending : ℤ
  pub active : Bool
  pub closing : Bool
  pub place : Place
  pub dropped : ℕ
  pub failures : ℕ
  pub delivered : List ℕ

abbrev pub new_dispatcher : Dispatcher
new_dispatcher = record {
  events = [];
  stop = false;
  pending = pos 0;
  active = false;
  closing = false;
  place = Place.polls;
  dropped = 0;
  failures = 0;
  delivered = [];
}

-- `emit`: the send never blocks. The count of a dropped event, which comes after the section, is in it.
unfoldable pub emit : Dispatcher → ℕ → Dispatcher
emit d event =
    if not d.closing && ltb (length d.events) observer_queue_capacity
    then record d { events = d.events ++ (event ∷ []); pending = d.pending +ℤ pos 1 }
    else record d { dropped = d.dropped + 1 }

-- The first select of the loop.
unfoldable pub poll : Dispatcher → Dispatcher
poll d = if d.stop then record d { place = Place.drops 0 } else record d { place = Place.selects }

-- The second select: the case that is ready, and either of them where both are; `prefers_event` is the pick.
unfoldable pub see_stop : Dispatcher → Dispatcher
see_stop d = if d.stop then record d { place = Place.drops 0 } else d

unfoldable pub receive : Dispatcher → List ℕ → Dispatcher
unfolding see_stop
receive d [] = see_stop d
receive d (e ∷ es) = record d { events = es; place = Place.claims e }

unfoldable pub select : Dispatcher → Bool → Dispatcher
unfolding see_stop receive
select d prefers_event = if d.stop && not prefers_event then see_stop d else receive d d.events

-- `claimDelivery`, and the count of an event that it does not claim.
unfoldable pub claim_delivery : Dispatcher → ℕ → Dispatcher
claim_delivery d event =
    if d.closing
    then record d { dropped = d.dropped + 1; place = Place.declines }
    else record d { active = true; place = Place.calls event }

-- The callback returns, or panics.
unfoldable pub return_callback : Dispatcher → ℕ → Bool → Dispatcher
return_callback d event panicked = record d {
  failures = if panicked then d.failures + 1 else d.failures;
  delivered = event ∷ d.delivered;
  place = Place.settles;
}

-- The section at the end of `deliver`.
unfoldable pub settle : Dispatcher → Dispatcher
settle d = record d { active = false; pending = d.pending -ℤ pos 1; place = Place.polls }

unfoldable pub complete : Dispatcher → ℕ → Place → Dispatcher
complete d count next = record d { pending = d.pending -ℤ pos count; place = next }

-- A turn of the loop of `dropPending`.
unfoldable pub drop_pending : Dispatcher → ℕ → List ℕ → Dispatcher
drop_pending d n (e ∷ es) = record d { events = es; place = Place.drops (n + 1) }
drop_pending d n [] =
    if ltb 0 n
    then record d { dropped = d.dropped + n; place = Place.completes n }
    else record d { place = Place.finished }

-- `close` up to where it waits; `self` is a close by the callback, which does not wait.
unfoldable pub begin_close : Dispatcher → Bool → Dispatcher
begin_close d self =
    if d.closing then d else record d { closing = true; stop = if self then true else d.stop }

-- The rest of the section of `close`, once the wait for the callback is over.
unfoldable pub stop_inactive : Dispatcher → Dispatcher
stop_inactive d = if d.closing && not d.active then record d { stop = true } else d

-- The condition on which `flush` returns.
abbrev pub is_flushed : Dispatcher → Bool
is_flushed d = elim d.pending [ pos n ↦ n == 0 | ℤ.negsuc n ↦ false ]
