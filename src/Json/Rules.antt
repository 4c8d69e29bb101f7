-- ===== src/Json/Rules.antt =====
-- internal/strictjson/parser.go: rules for what holds of a scan that succeeds.
use mathlib.Core.Path.{subst}
use repost_go.Json.Scan.{Outcome, Failure, ok, failed, out_of_fuel, Scanner, require, ◌>>=◌, ◌>>◌}
use repost_go.Prelude.{◌≡◌, refl, Bool, true, false}

-- Where an outcome is a success, its value satisfies a predicate.
unfoldable pub Then {ℓ} : {A : Type ℓ} → (A → Type 0) → Outcome A → Type 0
Then P (ok a) = P a
Then P _ = Unit

module _ {ℓ κ} {A : Type ℓ} {B : Type κ} (P : A → Type 0) (Q : B → Type 0) where
  pub Then-bind :
      (m : Outcome A) (f : A → Outcome B)
      → Then P m
      → ((a : A) → P a → Then Q (f a))
      → Then Q (m >>= f)
  unfolding ◌>>=◌ Then
  Then-bind (ok a) f h k = k a h
  Then-bind (failed e) f h k = tt
  Then-bind out_of_fuel f h k = tt

module _ {κ} {B : Type κ} (Q : B → Type 0) where
  pub Then-require :
      (b : Bool) (e : Failure) (k : Outcome B) → (b ≡ true → Then Q k) → Then Q (require b e >> k)
  unfolding ◌>>=◌ require Then
  Then-require true e k h = h refl
  Then-require false e k h = tt

  pub Then-ok : (b : B) → Q b → Then Q (ok b)
  unfolding Then
  Then-ok b h = h

pub any {ℓ} : {A : Type ℓ} (m : Outcome A) → Then (λ _. Unit) m
unfolding Then
any (ok a) = tt
any (failed e) = tt
any out_of_fuel = tt

pub any-fuel {ℓ} : {A : Type ℓ} (P : A → Type 0) → Then P out_of_fuel
unfolding Then
any-fuel P = tt

pub any-failed {ℓ} : {A : Type ℓ} (P : A → Type 0) (e : Failure) → Then P (failed e)
unfolding Then
any-failed P e = tt

pub Then-of : (P : Scanner → Type 0) (o : Outcome Scanner) (s : Scanner) → Then P o → o ≡ ok s → P s
unfolding Then
Then-of P (ok x) s h e = subst P (cc) h
Then-of P (failed x) s h e = absurd (cc)
Then-of P out_of_fuel s h e = absurd (cc)
