-- ===== src/Operation/Prepare/Rules.antt =====
-- operation.go: rules for what holds of a preparation.
use mathlib.Core.Path.{subst}
use repost_go.Errors.{Error}
use repost_go.Operation.Prepare.{Prepared, ready, refused, nil_error, ◌>>=◌, ◌>>◌, require}
use repost_go.Prelude.{◌≡◌, refl, Bool, true, false}

module _ (R : Error → Type 0) where
  -- What succeeds satisfies one predicate, and an error another.
  unfoldable pub Holds {ℓ} : {A : Type ℓ} → (A → Type 0) → Prepared A → Type 0
  Holds P (ready a) = P a
  Holds P (refused e) = R e
  Holds P nil_error = Unit

  module _ {ℓ κ} {A : Type ℓ} {B : Type κ} (P : A → Type 0) (Q : B → Type 0) where
    pub Holds-bind :
        (m : Prepared A) (f : A → Prepared B)
        → Holds P m
        → ((a : A) → P a → Holds Q (f a))
        → Holds Q (m >>= f)
    unfolding ◌>>=◌ Holds
    Holds-bind (ready a) f h k = k a h
    Holds-bind (refused e) f h k = h
    Holds-bind nil_error f h k = h

  module _ {κ} {B : Type κ} (Q : B → Type 0) where
    pub Holds-require :
        (b : Bool) (e : Error) (k : Prepared B)
        → (b ≡ false → R e)
        → (b ≡ true → Holds Q k)
        → Holds Q (require b e >> k)
    unfolding ◌>>=◌ require Holds
    Holds-require true e k r h = h refl
    Holds-require false e k r h = r refl

    pub Holds-ready : (b : B) → Q b → Holds Q (ready b)
    unfolding Holds
    Holds-ready b h = h

    pub Holds-of : (m : Prepared B) (b : B) → Holds Q m → m ≡ ready b → Q b
    unfolding Holds
    Holds-of (ready a) b h e = subst Q (cc) h
    Holds-of (refused x) b h e = absurd (cc)
    Holds-of nil_error b h e = absurd (cc)

    pub Holds-refused : (m : Prepared B) (e : Error) → Holds Q m → m ≡ refused e → R e
    unfolding Holds
    Holds-refused (ready a) e h q = absurd (cc)
    Holds-refused (refused x) e h q = subst R (cc) h
    Holds-refused nil_error e h q = absurd (cc)
