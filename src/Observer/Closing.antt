-- ===== src/Observer/Closing.antt =====
-- observer.go: the dispatcher and its goroutine once a close has begun.
use repost_go.Observer.Schedules.{
  Event, emits, runs, begins_close, stops, advance, step, run, is_calling,
}
use repost_go.Observer.{
  Dispatcher, Place, emit, poll, receive, see_stop, select, claim_delivery, return_callback, settle,
  complete, drop_pending, begin_close, stop_inactive,
}
use repost_go.Prelude.{
  ℕ, suc, ◌+◌, ◌≤◌, ◌≡◌, refl, ◌∙◌, Bool, true, false, List, [], ◌∷◌, length, arith,
}

-- Closing, and past the last callback.
abbrev pub IsQuiet : Dispatcher → Type 0
IsQuiet d = (d.closing ≡ true) × (is_calling d.place ≡ false)

-- What a step keeps of a quiet dispatcher.
abbrev Stays : Dispatcher → Dispatcher → Type 0
Stays d d' = IsQuiet d' × (d'.delivered ≡ d.delivered)

receive-Stays :
    (d : Dispatcher) (es : List ℕ) → d.place ≡ Place.selects → IsQuiet d → Stays d (receive d es)
unfolding receive see_stop
receive-Stays d [] q v = ground arith
receive-Stays d (x ∷ es) q v = ground arith

drop_pending-Stays :
    (d : Dispatcher) (k : ℕ) (es : List ℕ) → IsQuiet d → Stays d (drop_pending d k es)
unfolding drop_pending
drop_pending-Stays d k [] v = ground arith
drop_pending-Stays d k (x ∷ es) v = ground arith

advance-Stays :
    (d : Dispatcher) (p : Place) (a b : Bool) → d.place ≡ p → IsQuiet d → Stays d (advance d p a b)
unfolding advance poll select see_stop claim_delivery return_callback settle complete
advance-Stays d Place.polls a b q v = ground arith
advance-Stays d Place.selects a b q v = ground (arith, receive-Stays d d.events q v)
advance-Stays d (Place.claims e) a b q v = ground arith
advance-Stays d (Place.calls e) a b q v = absurd (ground arith)
advance-Stays d Place.settles a b q v = absurd (ground arith)
advance-Stays d Place.declines a b q v = ground arith
advance-Stays d (Place.drops k) a b q v = drop_pending-Stays d k d.events v
advance-Stays d (Place.completes k) a b q v = ground arith
advance-Stays d Place.finished a b q v = ground arith

step-Stays : (d : Dispatcher) (e : Event) → IsQuiet d → Stays d (step d e)
unfolding step emit begin_close stop_inactive
step-Stays d (emits e) v = ground arith
step-Stays d (runs a b) v = advance-Stays d d.place a b refl v
step-Stays d (begins_close self) v = ground arith
step-Stays d stops v = ground arith

-- Once the dispatcher is closing and no callback runs or is being settled, which is when a close from
-- outside the callback goes on, no schedule delivers another event.
pub run-delivered :
    (es : List Event) (d : Dispatcher)
    → d.closing ≡ true
    → is_calling d.place ≡ false
    → (run d es).delivered ≡ d.delivered
unfolding run
run-delivered [] d h k = refl
run-delivered (e ∷ es) d h k =
    let (quiet, same) = step-Stays d e (h, k) in run-delivered es (step d e) quiet.0 quiet.1 ∙ same

-- The steps that are left at most, for a dispatcher that is closing and stopped.
abbrev pub steps_left : Place → ℕ → ℕ
steps_left Place.finished n = 0
steps_left (Place.completes k) n = 1
steps_left (Place.drops k) n = n + 2
steps_left Place.polls n = n + 3
steps_left Place.declines n = n + 4
steps_left Place.settles n = n + 4
steps_left (Place.claims e) n = n + 5
steps_left (Place.calls e) n = n + 5
steps_left Place.selects n = n + 5

-- The goroutine ends within `n` steps.
abbrev Ends : Dispatcher → ℕ → Type 0
Ends d n = (d.closing ≡ true) × (d.stop ≡ true) × (steps_left d.place (length d.events) ≤ n)

receive-Ends :
    (d : Dispatcher) (n : ℕ) (es : List ℕ)
    → d.place ≡ Place.selects
    → d.events ≡ es
    → Ends d (suc n)
    → Ends (receive d es) n
unfolding receive see_stop
receive-Ends d n [] q e v = ground arith
receive-Ends d n (x ∷ es) q e v = ground arith

drop_pending-Ends :
    (d : Dispatcher) (n k : ℕ) (es : List ℕ)
    → d.place ≡ Place.drops k
    → d.events ≡ es
    → Ends d (suc n)
    → Ends (drop_pending d k es) n
unfolding drop_pending
drop_pending-Ends d n k [] q e v = ground arith
drop_pending-Ends d n k (x ∷ es) q e v = ground arith

advance-Ends :
    (d : Dispatcher) (n : ℕ) (p : Place) (a b : Bool)
    → d.place ≡ p
    → Ends d (suc n)
    → Ends (advance d p a b) n
unfolding advance poll select see_stop claim_delivery return_callback settle complete
advance-Ends d n Place.polls a b q v = ground arith
advance-Ends d n Place.selects a b q v = ground (arith, receive-Ends d n d.events q refl v)
advance-Ends d n (Place.claims e) a b q v = ground arith
advance-Ends d n (Place.calls e) a b q v = ground arith
advance-Ends d n Place.settles a b q v = ground arith
advance-Ends d n Place.declines a b q v = ground arith
advance-Ends d n (Place.drops k) a b q v = drop_pending-Ends d n k d.events q refl v
advance-Ends d n (Place.completes k) a b q v = ground arith
advance-Ends d n Place.finished a b q v = ground arith

-- The steps of the goroutine alone, by the picks of its selects.
abbrev pub alone : List Bool → List Event
alone [] = []
alone (a ∷ picks) = runs a false ∷ alone picks

ended : (p : Place) (n : ℕ) → steps_left p n ≤ 0 → p ≡ Place.finished
ended Place.finished n h = refl
ended (Place.completes k) n h = absurd (omega arith)
ended (Place.drops k) n h = absurd (omega arith)
ended Place.polls n h = absurd (omega arith)
ended Place.declines n h = absurd (omega arith)
ended Place.settles n h = absurd (omega arith)
ended (Place.claims e) n h = absurd (omega arith)
ended (Place.calls e) n h = absurd (omega arith)
ended Place.selects n h = absurd (omega arith)

-- Once the stop channel of a closing dispatcher is closed, and its callback, if one runs, returns: as
-- many steps as `steps_left` counts, at most five more than the queued events, bring the goroutine to
-- its end, whichever case its
-- selects pick.
pub run-alone :
    (picks : List Bool) (d : Dispatcher)
    → d.closing ≡ true
    → d.stop ≡ true
    → steps_left d.place (length d.events) ≤ length picks
    → (run d (alone picks)).place ≡ Place.finished
unfolding run step
run-alone [] d h k l = ended d.place (length d.events) l
run-alone (a ∷ picks) d h k l =
    let (h', k', l') = advance-Ends d (length picks) d.place a false refl (h, k, l) in
    run-alone picks (advance d d.place a false) h' k' l'
