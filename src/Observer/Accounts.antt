-- ===== src/Observer/Accounts.antt =====
-- observer.go: where each event is after a step of the dispatcher.
use repost_go.Observer.Schedules.{advance, is_calling}
use mathlib.Core.Path.{subst}
use repost_go.Observer.{
  Dispatcher, Place, emit, poll, receive, see_stop, select, claim_delivery, return_callback, settle,
  complete, drop_pending, observer_queue_capacity,
}
use repost_go.Observer.Thinned.{Thinned, lost-last, onto, onto-kept, onto-lose}
use repost_go.Prelude.Int.{pos, ◌+ℤ◌, ◌-ℤ◌}
use repost_go.Prelude.{
  ℕ, suc, ◌+◌, ◌≤◌, ◌≡◌, refl, sym, ap, Bool, not, ◌&&◌, List, [], ◌∷◌, ◌++◌, length, length-append,
  if_P, ltb, arith,
}

-- How many events the goroutine has taken from the queue that are still counted as pending.
abbrev pub in_hand : Place → ℕ
in_hand (Place.claims e) = 1
in_hand (Place.calls e) = 1
in_hand Place.settles = 1
in_hand Place.declines = 1
in_hand (Place.drops n) = n
in_hand (Place.completes n) = n
in_hand _ = 0

-- The queue, and before it the event that the goroutine has taken from it and neither delivered nor
-- given up.
abbrev pub waiting : Place → List ℕ → List ℕ
waiting (Place.claims e) es = e ∷ es
waiting (Place.calls e) es = e ∷ es
waiting _ es = es

-- How many events are given up and not yet counted as dropped.
abbrev pub given_up : Place → ℕ
given_up (Place.drops n) = n
given_up _ = 0

-- What holds once these events were emitted.
pub record Inv (all : List ℕ) (d : Dispatcher) : Type 0 where
  pub accounted :
      Thinned (d.dropped + given_up d.place) all (onto d.delivered (waiting d.place d.events))
  pub pending_ok : d.pending ≡ pos (length d.events + in_hand d.place)
  pub bounded : length d.events ≤ observer_queue_capacity
  pub active_ok : d.active ≡ is_calling d.place

pub recounted :
    (n m : ℕ) (all xs ys : List ℕ) → Thinned n all xs → n ≡ m → xs ≡ ys → Thinned m all ys
recounted n m all xs ys t e f = subst (Thinned m all) f (subst (λ k. Thinned k all xs) e t)

waiting-append :
    (p : Place) (es : List ℕ) (e : ℕ) → waiting p (es ++ (e ∷ [])) ≡ waiting p es ++ (e ∷ [])
waiting-append p es e = ground arith

pub emit-Inv :
    (all : List ℕ) (d : Dispatcher) (e : ℕ) → Inv all d → Inv (all ++ (e ∷ [])) (emit d e)
unfolding emit ◌+ℤ◌
emit-Inv all d e v =
    if_P (Inv (all ++ (e ∷ []))) (not d.closing && ltb (length d.events) observer_queue_capacity) _
      _
      (λ h. record {
        accounted =
            subst
              (λ ys. Thinned (d.dropped + given_up d.place) (all ++ (e ∷ [])) (onto d.delivered ys))
              (sym (waiting-append d.place d.events e))
              (onto-kept d.delivered (waiting d.place d.events) e v.accounted);
        pending_ok = ground (arith, v.pending_ok, length-append d.events (e ∷ []));
        bounded = ground (arith, h, length-append d.events (e ∷ []));
        active_ok = v.active_ok;
      })
      λ h. record {
        accounted =
            recounted _ _ (all ++ (e ∷ [])) _ _ (lost-last e v.accounted) (omega arith) refl;
        pending_ok = v.pending_ok;
        bounded = v.bounded;
        active_ok = v.active_ok;
      }

accounted_at :
    (all : List ℕ) (d : Dispatcher) (p : Place)
    → d.place ≡ p
    → Inv all d
    → Thinned (d.dropped + given_up p) all (onto d.delivered (waiting p d.events))
accounted_at all d p q v =
    subst (λ p. Thinned (d.dropped + given_up p) all (onto d.delivered (waiting p d.events))) q
      v.accounted

-- The other parts of the invariant.
abbrev pub Counts : Dispatcher → Type 0
Counts d =
    (d.pending ≡ pos (length d.events + in_hand d.place))
    × (length d.events ≤ observer_queue_capacity)
    × (d.active ≡ is_calling d.place)

pub made :
    (all : List ℕ) (d : Dispatcher)
    → Thinned (d.dropped + given_up d.place) all (onto d.delivered (waiting d.place d.events))
    → Counts d
    → Inv all d
made all d t (a, b, c) = record { accounted = t; pending_ok = a; bounded = b; active_ok = c }

-- A step that leaves every event where it was.
moved :
    (all : List ℕ) (d d' : Dispatcher) (p : Place)
    → d.place ≡ p
    → Inv all d
    → d.dropped + given_up p ≡ d'.dropped + given_up d'.place
    → onto d.delivered (waiting p d.events) ≡ onto d'.delivered (waiting d'.place d'.events)
    → Counts d'
    → Inv all d'
moved all d d' p q v e f c = made all d' (recounted _ _ all _ _ (accounted_at all d p q v) e f) c

see_stop-Inv :
    (all : List ℕ) (d : Dispatcher) → d.place ≡ Place.selects → Inv all d → Inv all (see_stop d)
unfolding see_stop
see_stop-Inv all d q v =
    if_P (Inv all) d.stop _ _ (λ _. moved all d _ Place.selects q v refl refl (ground arith)) λ _. v

receive-Inv :
    (all : List ℕ) (d : Dispatcher) (es : List ℕ)
    → d.place ≡ Place.selects
    → d.events ≡ es
    → Inv all d
    → Inv all (receive d es)
unfolding receive
receive-Inv all d [] q e v = see_stop-Inv all d q v
receive-Inv all d (x ∷ es) q e v =
    moved all d _ Place.selects q v refl (ap (onto d.delivered) e) (ground arith)

drop_pending-Inv :
    (all : List ℕ) (d : Dispatcher) (k : ℕ) (es : List ℕ)
    → d.place ≡ Place.drops k
    → d.events ≡ es
    → Inv all d
    → Inv all (drop_pending d k es)
unfolding drop_pending
drop_pending-Inv all d k [] q e v =
    if_P (Inv all) (ltb 0 k) _ _
      (λ _. moved all d _ (Place.drops k) q v (omega arith) refl (ground arith))
      λ h. moved all d _ (Place.drops k) q v (ground (arith, h)) refl (ground arith)
drop_pending-Inv all d k (x ∷ es) q e v =
    made all _
      (recounted (suc (d.dropped + k)) (d.dropped + (k + 1)) all _ _
        (onto-lose d.delivered x es (
          subst (λ ys. Thinned (d.dropped + k) all (onto d.delivered ys)) e
            (accounted_at all d (Place.drops k) q v)))
        (omega arith) refl)
      (ground arith)

claim_delivery-Inv :
    (all : List ℕ) (d : Dispatcher) (e : ℕ)
    → d.place ≡ Place.claims e
    → Inv all d
    → Inv all (claim_delivery d e)
unfolding claim_delivery
claim_delivery-Inv all d e q v =
    if_P (Inv all) d.closing _ _
      (λ _.
        made all _
          (recounted (suc (d.dropped + 0)) (d.dropped + 1 + 0) all _ _
            (onto-lose d.delivered e d.events (accounted_at all d (Place.claims e) q v))
            (omega arith) refl)
          (ground arith))
      λ _. moved all d _ (Place.claims e) q v refl refl (ground arith)

pub advance-Inv :
    (all : List ℕ) (d : Dispatcher) (p : Place) (a b : Bool)
    → d.place ≡ p
    → Inv all d
    → Inv all (advance d p a b)
unfolding advance poll select return_callback settle complete ◌-ℤ◌ onto
advance-Inv all d Place.polls a b q v =
    if_P (Inv all) d.stop _ _ (λ _. moved all d _ Place.polls q v refl refl (ground arith))
      λ _. moved all d _ Place.polls q v refl refl (ground arith)
advance-Inv all d Place.selects a b q v =
    if_P (Inv all) (d.stop && not a) _ _ (λ _. see_stop-Inv all d q v)
      λ _. receive-Inv all d d.events q refl v
advance-Inv all d (Place.claims e) a b q v = claim_delivery-Inv all d e q v
advance-Inv all d (Place.calls e) a b q v =
    moved all d _ (Place.calls e) q v refl refl (ground arith)
advance-Inv all d Place.settles a b q v = moved all d _ Place.settles q v refl refl (ground arith)
advance-Inv all d Place.declines a b q v = moved all d _ Place.declines q v refl refl (ground arith)
advance-Inv all d (Place.drops k) a b q v = drop_pending-Inv all d k d.events q refl v
advance-Inv all d (Place.completes k) a b q v =
    moved all d _ (Place.completes k) q v refl refl (ground arith)
advance-Inv all d Place.finished a b q v = v
