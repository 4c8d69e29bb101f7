-- ===== src/Observer/Order.antt =====
-- observer.go: where each event is, under every schedule.
use repost_go.Observer.Accounts.{Inv, made, emit-Inv, advance-Inv, recounted, waiting, given_up}
use repost_go.Observer.Schedules.{
  Event, emits, runs, begins_close, stops, advance, step, run, emitted,
}
use mathlib.Core.Path.{subst}
use repost_go.Observer.{Dispatcher, new_dispatcher, begin_close, stop_inactive, is_flushed}
use repost_go.Observer.Thinned.{Thinned, nothing, onto}
use repost_go.Prelude.{
  ℕ, ◌+◌, ◌≡◌, refl, sym, ap, ◌∙◌, true, not, ◌&&◌, List, [], ◌∷◌, ◌++◌, append_assoc, append_nil,
  if_P, arith,
}

step-Inv :
    (all : List ℕ) (d : Dispatcher) (e : Event)
    → Inv all d
    → Inv (all ++ emitted (e ∷ [])) (step d e)
unfolding step begin_close stop_inactive
step-Inv all d (emits e) v = emit-Inv all d e v
step-Inv all d (runs a b) v =
    subst (λ xs. Inv xs (advance d d.place a b)) (sym (append_nil all))
      (advance-Inv all d d.place a b refl v)
step-Inv all d (begins_close self) v =
    subst (λ xs. Inv xs (begin_close d self)) (sym (append_nil all))
      (if_P (Inv all) d.closing _ _ (λ _. v) λ _. made all _ v.accounted (ground arith))
step-Inv all d stops v =
    subst (λ xs. Inv xs (stop_inactive d)) (sym (append_nil all))
      (if_P (Inv all) (d.closing && not d.active) _ _ (λ _. made all _ v.accounted (ground arith))
        λ _. v)

emitted-cons : (e : Event) (es : List Event) → emitted (e ∷ es) ≡ emitted (e ∷ []) ++ emitted es
emitted-cons (emits e) es = refl
emitted-cons (runs a b) es = refl
emitted-cons (begins_close self) es = refl
emitted-cons stops es = refl

run-Inv :
    (es : List Event) (all : List ℕ) (d : Dispatcher)
    → Inv all d
    → Inv (all ++ emitted es) (run d es)
unfolding run
run-Inv [] all d v = subst (λ xs. Inv xs d) (sym (append_nil all)) v
run-Inv (e ∷ es) all d v =
    subst (λ xs. Inv xs (run (step d e) es))
      (append_assoc all (emitted (e ∷ [])) (emitted es)
        ∙ ap (λ xs. all ++ xs) (sym (emitted-cons e es)))
      (run-Inv es (all ++ emitted (e ∷ [])) (step d e) (step-Inv all d e v))

-- Under every schedule of emits, closes and steps of the goroutine, from a new dispatcher: the events
-- delivered, oldest first, then the event in the hands of the goroutine, then the queue, are together
-- the events that were emitted, in their order, less as many as are counted as dropped or as `dropPending`
-- has taken and not yet counted; the pending count is that of the queue and of the events taken from it
-- whose completion is not counted yet; the queue stays within its capacity; and the active flag is
-- set exactly during a callback and its settling.
pub run-new_dispatcher-Inv : (es : List Event) → Inv (emitted es) (run new_dispatcher es)
unfolding onto
run-new_dispatcher-Inv es =
    run-Inv es [] new_dispatcher
      (record { accounted = nothing; pending_ok = refl; bounded = omega arith; active_ok = refl })

-- Nothing is pending.
idle_parts :
    (d : Dispatcher) (all : List ℕ)
    → Inv all d
    → is_flushed d ≡ true
    → (given_up d.place ≡ 0) × (waiting d.place d.events ≡ [])
idle_parts d all v h = ground (arith, v.pending_ok)

-- Where the condition of `flush` holds, after any schedule, the events delivered, oldest first, are the
-- events that were emitted, in their order, less as many as are counted as dropped.
pub is_flushed_lem :
    (es : List Event)
    → is_flushed (run new_dispatcher es) ≡ true
    → Thinned
        (run new_dispatcher es).dropped
        (emitted es)
        (onto (run new_dispatcher es).delivered [])
is_flushed_lem es h =
    let d : Dispatcher = run new_dispatcher es in
    let v : Inv (emitted es) d = run-new_dispatcher-Inv es in
    let (none_given_up, none_waiting) = idle_parts d (emitted es) v h in
    recounted (d.dropped + given_up d.place) d.dropped (emitted es) _ _ v.accounted
      (omega (arith, none_given_up)) (ap (onto d.delivered) none_waiting)
