-- ===== src/Http1/Written.antt =====
-- internal/h1/h1.go: what `writeAll` and `WriteRequest` have handed to the writer, by their result.
use repost_go.Http1.Writing.{
  Written, WriteError, wrote, write_from, write_all, joined, deliver, write_request, valid_request,
  request_head,
}
use repost_go.Http1.{Request}
use repost_go.Prelude.Int.{ℤ}
use repost_go.Prelude.{
  ℕ, zero, suc, ◌≤◌, ◌≡◌, refl, sym, ap, ◌∙◌, Bool, true, false, not, ◌&&◌, ◌||◌, Option, none,
  some, [], ◌∷◌, ◌++◌, Bytes, arith, length, take, drop, ltb, ◌==◌, if◌then◌else◌, append_assoc,
  length-append, length-take, length-drop, take-append-drop, if_P,
}

-- What a run that was given some bytes may leave.
record IsRun {ℓ} {W : Type ℓ} (cs : Bytes) (first marked : Bool) (o : Written W) : Type ℓ where
  prefix : (rest : Bytes) × (o.sent ++ rest ≡ cs)
  whole : o.error ≡ none → o.sent ≡ cs
  mark : o.marked ≡ (marked || first && not (length o.sent == 0))

module _ {ℓ} {W : Type ℓ} where
  abbrev stopped : W → Bytes → Bool → WriteError → Written W
  stopped w sent marked e = record { writer = w; sent = sent; marked = marked; error = some e }

  stopped-IsRun :
      (w : W) (cs : Bytes) (n : ℕ) (first marked m : Bool) (e : WriteError)
      → m ≡ (marked || first && not (length (take n cs) == 0))
      → IsRun cs first marked (stopped w (take n cs) m e)
  stopped-IsRun w cs n first marked m e h = record {
    prefix = (drop n cs, take-append-drop n cs);
    whole = λ e. absurd (cc);
    mark = h;
  }

  onward-IsRun :
      (cs : Bytes) (n : ℕ) (first marked now : Bool) (o : Written W)
      → 1 ≤ n
      → n ≤ length cs
      → now ≡ (marked || first)
      → IsRun (drop n cs) first now o
      → IsRun cs first marked (record o { sent = take n cs ++ o.sent })
  onward-IsRun cs n first marked now o l k e r = record {
    prefix = (
      r.prefix.0,
      append_assoc (take n cs) o.sent r.prefix.0
          ∙ ap (λ x. take n cs ++ x) r.prefix.1
          ∙ take-append-drop n cs,
    );
    whole = λ q. ap (λ x. take n cs ++ x) (r.whole q) ∙ take-append-drop n cs;
    mark = ground (arith, r.mark, length-append (take n cs) o.sent, length-take n cs);
  }

  wrote-IsRun :
      (more : ℕ → Bool → Written W) (n : ℤ) (bad : Bool) (w : W) (cs : Bytes) (first marked : Bool)
      → 1 ≤ length cs
      → ((k : ℕ) (now : Bool) → 1 ≤ k → IsRun (drop k cs) first now (more k now))
      → IsRun cs first marked (wrote more n bad w cs first marked)
  unfolding wrote
  wrote-IsRun more (ℤ.negsuc n) bad w cs first marked le h =
      stopped-IsRun w cs 0 first marked marked WriteError.short_write (ground arith)
  wrote-IsRun more (ℤ.pos n) bad w cs first marked le h =
      if_P (IsRun cs first marked) (ltb (length cs) n) _ _
        (λ _. stopped-IsRun w cs 0 first marked marked WriteError.short_write (ground arith))
        λ a.
          if_P (IsRun cs first marked) bad _ _
            (λ _.
              stopped-IsRun w cs n first marked _ WriteError.write_failed
                (ground (arith, a, le, length-take n cs)))
            λ _.
              if_P (IsRun cs first marked) (n == 0) _ _
                (λ z.
                  stopped-IsRun w cs 0 first marked _ WriteError.short_write (ground (arith, z)))
                λ z.
                  onward-IsRun cs n first marked _ (more n _) (ground (arith, z))
                    (ground (arith, a)) (ground (arith, z)) (h n _ (ground (arith, z)))

module _ {ℓ} {W : Type ℓ} (write : W → Bytes → ℤ × Bool × W) where
  write_from-IsRun :
      (f : ℕ) (w : W) (cs : Bytes) (first marked : Bool)
      → length cs ≤ f
      → IsRun cs first marked (write_from write f w cs first marked)
  unfolding write_from
  write_from-IsRun zero w [] first marked l = record {
    prefix = ([], refl);
    whole = λ e. refl;
    mark = ground arith;
  }
  write_from-IsRun zero w (c ∷ cs) first marked l = absurd (omega arith)
  write_from-IsRun (suc f) w [] first marked l = record {
    prefix = ([], refl);
    whole = λ e. refl;
    mark = ground arith;
  }
  write_from-IsRun (suc f) w (c ∷ cs) first marked l =
      let (count, bad, w') = write w (c ∷ cs) in
      wrote-IsRun (λ n now. write_from write f w' (drop n (c ∷ cs)) first now) count bad w' (c ∷ cs)
        first marked (omega arith)
        λ k now p.
          write_from-IsRun f w' (drop k (c ∷ cs)) first now (omega (arith, length-drop k (c ∷ cs)))

  write_all-IsRun :
      (w : W) (cs : Bytes) (first : Bool) → IsRun cs first false (write_all write w cs first)
  unfolding write_all
  write_all-IsRun w cs first = write_from-IsRun (length cs) w cs first false (omega arith)

  -- What the writer took of a request, by what the two runs took of its parts.
  whole_run :
      (head body : Bytes) (o p : Written W)
      → IsRun head false false o
      → IsRun body true false p
      → o.error ≡ none
      → ((rest : Bytes) × ((o.sent ++ p.sent) ++ rest ≡ head ++ body))
        × (p.marked ≡ ltb (length head) (length (o.sent ++ p.sent)))
  whole_run head body o p a b e = (
    (
      b.prefix.0,
      append_assoc o.sent p.sent b.prefix.0
          ∙ ap (λ x. o.sent ++ x) b.prefix.1
          ∙ ap (λ x. x ++ body) (a.whole e),
    ),
    ground (arith, b.mark, length-append o.sent p.sent, ap length (a.whole e)),
  )

  cut_run :
      (head body : Bytes) (o : Written W)
      → IsRun head false false o
      → ((rest : Bytes) × (o.sent ++ rest ≡ head ++ body))
        × (o.marked ≡ ltb (length head) (length o.sent))
  cut_run head body o a = (
    (
      a.prefix.0 ++ body,
      sym (append_assoc o.sent a.prefix.0 body) ∙ ap (λ x. x ++ body) a.prefix.1,
    ),
    ground (arith, a.mark, length-append o.sent a.prefix.0, ap length a.prefix.1),
  )

  -- What `write_request-IsPrefix` states, of any head and body.
  Delivered : Bytes → Bytes → Written W → Type 0
  Delivered head text o =
      ((rest : Bytes) × (o.sent ++ rest ≡ text)) × (o.marked ≡ ltb (length head) (length o.sent))

  joined-Delivered :
      (x : Option WriteError) (head body : Bytes) (o p : Written W)
      → o.error ≡ x
      → IsRun head false false o
      → IsRun body true false p
      → Delivered head (head ++ body) (joined write x o p)
  unfolding joined Delivered
  joined-Delivered none head body o p e a b = whole_run head body o p a b e
  joined-Delivered (some x) head body o p e a b = cut_run head body o a

  deliver-Delivered :
      (valid : Bool) (w : W) (head body : Bytes)
      → Delivered head (if valid then head ++ body else []) (deliver write valid w head body)
  unfolding deliver
  deliver-Delivered false w head body = unfold Delivered in (([], refl), ground arith)
  deliver-Delivered true w head body =
      joined-Delivered (write_all write w head false).error head body _ _ refl
        (write_all-IsRun w head false)
        (write_all-IsRun (write_all write w head false).writer body true)

  joined-whole :
      (x : Option WriteError) (head body : Bytes) (o p : Written W)
      → o.error ≡ x
      → IsRun head false false o
      → IsRun body true false p
      → (joined write x o p).error ≡ none
      → ((joined write x o p).sent ≡ head ++ body)
        × ((joined write x o p).marked ≡ not (length body == 0))
  unfolding joined
  joined-whole none head body o p e a b q = (
    ap (λ x. x ++ p.sent) (a.whole e) ∙ ap (λ x. head ++ x) (b.whole q),
    ground (arith, b.mark, ap length (b.whole q)),
  )
  joined-whole (some x) head body o p e a b q = absurd (cc)

  deliver-whole :
      (valid : Bool) (w : W) (head body : Bytes)
      → (deliver write valid w head body).error ≡ none
      → (valid ≡ true)
        × ((deliver write valid w head body).sent ≡ head ++ body)
        × ((deliver write valid w head body).marked ≡ not (length body == 0))
  unfolding deliver
  deliver-whole false w head body q = absurd (cc)
  deliver-whole true w head body q =
      let (sent, marked) =
        joined-whole (write_all write w head false).error head body _ _ refl
          (write_all-IsRun w head false)
          (write_all-IsRun (write_all write w head false).writer body true) q in
      (refl, sent, marked)

  -- Whatever the writer answers, the bytes it has taken are a beginning of the request's head and body,
  -- or none where the request is not valid, and the request is marked as committed exactly where
  -- they are more than the head.
  pub write_request-IsPrefix :
      (w : W) (req : Request)
      → ((rest : Bytes) × ((write_request write w req).sent ++ rest
            ≡ (if valid_request req then request_head req ++ req.body else [])))
        × ((write_request write w req).marked
            ≡ ltb (length (request_head req)) (length (write_request write w req).sent))
  unfolding write_request Delivered
  write_request-IsPrefix w req = deliver-Delivered (valid_request req) w (request_head req) req.body

  -- Where the writing ends without an error, the request is valid, the writer has taken its head and
  -- its body and nothing else, and it is marked as committed exactly if its body is not empty.
  pub write_request-whole :
      (w : W) (req : Request)
      → (write_request write w req).error ≡ none
      → (valid_request req ≡ true)
        × ((write_request write w req).sent ≡ request_head req ++ req.body)
        × ((write_request write w req).marked ≡ not (length req.body == 0))
  unfolding write_request
  write_request-whole w req h = deliver-whole (valid_request req) w (request_head req) req.body h
