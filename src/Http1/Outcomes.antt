-- ===== src/Http1/Outcomes.antt =====
-- internal/h1/h1.go: rules for what holds of a step that may fail.
use mathlib.Core.Path.{subst}
use repost_go.Http1.{ReadError, Result, ok, failed, ◌>>=◌, ◌>>◌, require}
use repost_go.Prelude.{◌≡◌, refl, Bool, true, false, Option, none, some}

-- An error of the code's.
unfoldable pub Real : ReadError → Type 0
Real ReadError.out_of_fuel = ⊥
Real _ = Unit

-- The value of a step that succeeds satisfies a predicate, and no failure is for want of fuel.
unfoldable pub Then {ℓ} : {A : Type ℓ} → (A → Type 0) → Result A → Type 0
unfolding Real
Then P (ok a) = P a
Then P (failed e) = Real e

module _ {ℓ κ} {A : Type ℓ} {B : Type κ} (P : A → Type 0) (Q : B → Type 0) where
  pub Then-bind :
      (m : Result A) (f : A → Result B)
      → Then P m
      → ((a : A) → P a → Then Q (f a))
      → Then Q (m >>= f)
  unfolding ◌>>=◌ Then
  Then-bind (ok a) f h k = k a h
  Then-bind (failed e) f h k = h

module _ {κ} {B : Type κ} (Q : B → Type 0) where
  pub Then-require :
      (b : Bool) (e : ReadError) (k : Result B)
      → Real e
      → (b ≡ true → Then Q k)
      → Then Q (require b e >> k)
  unfolding ◌>>=◌ require Then
  Then-require true e k r h = h refl
  Then-require false e k r h = r

  pub Then-option :
      {A : Type 0} (o : Option A) (e : ReadError) (f : A → Result B)
      → Real e
      → ((a : A) → o ≡ some a → Then Q (f a))
      → Then Q (elim o [ none ↦ failed e | some a ↦ f a ])
  unfolding Then
  Then-option none e f r h = r
  Then-option (some a) e f r h = h a refl

  pub Then-ok : (b : B) → Q b → Then Q (ok b)
  unfolding Then
  Then-ok b h = h

  pub Then-failed : (e : ReadError) → Real e → Then Q (failed e)
  unfolding Then
  Then-failed e r = r

  pub Then-of : (m : Result B) (b : B) → Then Q m → m ≡ ok b → Q b
  unfolding Then
  Then-of (ok a) b h e = subst Q (cc) h
  Then-of (failed x) b h e = absurd (cc)

-- An error is the code's where the step satisfies some predicate.
pub Then-Real {ℓ} :
    {A : Type ℓ} (P : A → Type 0) (m : Result A) (e : ReadError) → Then P m → m ≡ failed e → Real e
unfolding Then
Then-Real P (ok a) e h q = absurd (cc)
Then-Real P (failed x) e h q = subst Real (cc) h

-- What holds of both cases of a step holds of the choice between them.
pub Result_P {ℓ κ μ} :
    {A : Type ℓ} {B : Type κ} (P : B → Type μ) (m : Result A) (f : ReadError → B) (g : A → B)
    → ((e : ReadError) → m ≡ failed e → P (f e))
    → ((a : A) → m ≡ ok a → P (g a))
    → P (elim m [ failed e ↦ f e | ok a ↦ g a ])
Result_P P (ok a) f g h k = k a refl
Result_P P (failed e) f g h k = h e refl

pub Then-map {ℓ} :
    {A : Type ℓ} (P Q : A → Type 0) (m : Result A) → Then P m → ((a : A) → P a → Q a) → Then Q m
unfolding Then
Then-map P Q (ok a) h k = k a h
Then-map P Q (failed e) h k = h
