-- ===== src/Observer/Thinned.antt =====
-- observer.go: lists of events of which some are left out.
use repost_go.Prelude.{ℕ, suc, ◌≡◌, refl, sym, List, [], ◌∷◌, ◌++◌}
use mathlib.Core.Path.{subst}

-- The second list is the first, in its order, less as many of its elements as the number says.
pub data Thinned : ℕ → List ℕ → List ℕ → Type 0 where
  nothing : Thinned 0 [] []
  kept : {n : ℕ} {xs ys : List ℕ} (x : ℕ) → Thinned n xs ys → Thinned n (x ∷ xs) (x ∷ ys)
  lost : {n : ℕ} {xs ys : List ℕ} (x : ℕ) → Thinned n xs ys → Thinned (suc n) (x ∷ xs) ys

kept-last :
    {n : ℕ} {xs ys : List ℕ} (x : ℕ) → Thinned n xs ys → Thinned n (xs ++ (x ∷ [])) (ys ++ (x ∷ []))
kept-last x nothing = kept x nothing
kept-last x (kept y t) = kept y (kept-last x t)
kept-last x (lost y t) = lost y (kept-last x t)

pub lost-last :
    {n : ℕ} {xs ys : List ℕ} (x : ℕ) → Thinned n xs ys → Thinned (suc n) (xs ++ (x ∷ [])) ys
lost-last x nothing = lost x nothing
lost-last x (kept y t) = kept y (lost-last x t)
lost-last x (lost y t) = lost y (lost-last x t)

cons_parts : {x y : ℕ} {xs ys : List ℕ} → x ∷ xs ≡ y ∷ ys → (x ≡ y) × (xs ≡ ys)
cons_parts e = (cc, cc)

-- One more element is left out.
lose_head :
    {n : ℕ} {xs zs : List ℕ} (x : ℕ) (ys : List ℕ)
    → Thinned n xs zs
    → zs ≡ x ∷ ys
    → Thinned (suc n) xs ys
lose_head x ys nothing e = absurd (cc)
lose_head x ys (kept y t) e = subst (Thinned _ _) (cons_parts e).1 (lost y t)
lose_head x ys (lost y t) e = lost y (lose_head x ys t e)

kept_as : (n : ℕ) (xs ys : List ℕ) (y u : ℕ) → y ≡ u → Thinned n xs ys → Thinned n (y ∷ xs) (u ∷ ys)
kept_as n xs ys y u e t = subst (λ z. Thinned n (y ∷ xs) (z ∷ ys)) e (kept y t)

lose :
    {n : ℕ} {xs zs : List ℕ} (us : List ℕ) (x : ℕ) (vs : List ℕ)
    → Thinned n xs zs
    → zs ≡ us ++ (x ∷ vs)
    → Thinned (suc n) xs (us ++ vs)
lose [] x vs t e = lose_head x vs t e
lose (u ∷ us) x vs nothing e = absurd (cc)
lose (u ∷ us) x vs (kept y t) e =
    let (head, tail) = cons_parts e in kept_as _ _ (us ++ vs) y u head (lose us x vs t tail)
lose (u ∷ us) x vs (lost y t) e = lost y (lose (u ∷ us) x vs t e)

-- The second list behind the first, turned round.
unfoldable pub onto : List ℕ → List ℕ → List ℕ
onto [] ys = ys
onto (x ∷ xs) ys = onto xs (x ∷ ys)

onto-append : (xs ys zs : List ℕ) → onto xs (ys ++ zs) ≡ onto xs ys ++ zs
unfolding onto
onto-append [] ys zs = refl
onto-append (x ∷ xs) ys zs = onto-append xs (x ∷ ys) zs

pub onto-lose :
    {n : ℕ} {all : List ℕ} (xs : List ℕ) (x : ℕ) (ys : List ℕ)
    → Thinned n all (onto xs (x ∷ ys))
    → Thinned (suc n) all (onto xs ys)
onto-lose xs x ys t =
    subst (Thinned _ _) (sym (onto-append xs [] ys))
      (lose (onto xs []) x ys t (onto-append xs [] (x ∷ ys)))

pub onto-kept :
    {n : ℕ} {all : List ℕ} (xs ys : List ℕ) (x : ℕ)
    → Thinned n all (onto xs ys)
    → Thinned n (all ++ (x ∷ [])) (onto xs (ys ++ (x ∷ [])))
onto-kept xs ys x t = subst (Thinned _ _) (sym (onto-append xs ys (x ∷ []))) (kept-last x t)
