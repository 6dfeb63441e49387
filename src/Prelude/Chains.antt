-- ===== src/Prelude/Chains.antt =====
-- What a chain of fallible steps ensures of the value that it returns, one rule for each way to
-- build the chain.
use mathlib.Core.Path.{◌≡◌, refl, subst}
use mathlib.Core.Bool.{Bool, true, false}
use mathlib.Core.Option.{Option, none, some}
use go_project.Prelude.Tests.{if◌then◌else◌}
use go_project.Prelude.Results.{Error, Result, ok, err, ◌>>=◌}

pub record Ensures {ℓ κ} {A : Type ℓ} (P : A → Type κ) (r : Result A) : Type (ℓ ⊔ κ) where
  pub holds : (a : A) → r ≡ ok a → P a

or_default {ℓ} : {A : Type ℓ} → A → Result A → A
or_default d (ok a) = a
or_default d (err e) = d

module _ {ℓ κ} {A : Type ℓ} {P : A → Type κ} where
  pub Ensures-ok : {a : A} → P a → Ensures P (ok a)
  unfolding or_default
  Ensures-ok {a} p = record { holds = λ b h. subst P (λ i. or_default a (h i)) p }

  pub Ensures-err : (e : Error) → Ensures P (err e)
  Ensures-err e = record { holds = λ b h. cc }

  pub Ensures-if :
      (b : Bool) {m n : Result A}
      → (b ≡ true → Ensures P m)
      → (b ≡ false → Ensures P n)
      → Ensures P (if b then m else n)
  Ensures-if true km kn = km refl
  Ensures-if false km kn = kn refl

module _ {ℓ κ ν μ} {A : Type ℓ} {B : Type κ} {P : A → Type ν} {Q : B → Type μ} where
  pub Ensures-bind :
      (m : Result A) {f : A → Result B}
      → Ensures P m
      → ((a : A) → m ≡ ok a → P a → Ensures Q (f a))
      → Ensures Q (m >>= f)
  Ensures-bind (ok a) km kf = kf a refl (km.holds a refl)
  Ensures-bind (err e) km kf = Ensures-err e

module _ {ℓ κ μ} {A : Type ℓ} {B : Type κ} {Q : B → Type μ} where
  -- Of the first step only its equation is used.
  pub Ensures-bind-eq :
      (m : Result A) {f : A → Result B}
      → ((a : A) → m ≡ ok a → Ensures Q (f a))
      → Ensures Q (m >>= f)
  Ensures-bind-eq (ok a) kf = kf a refl
  Ensures-bind-eq (err e) kf = Ensures-err e

module _ {ℓ κ μ} {A : Type ℓ} {B : Type κ} {Q : B → Type μ} where
  -- A match on a lookup.
  pub Ensures-elim :
      (o : Option A) {n : Result B} {f : A → Result B}
      → (o ≡ none → Ensures Q n)
      → ((a : A) → o ≡ some a → Ensures Q (f a))
      → Ensures Q (elim o [ none ↦ n | some a ↦ f a ])
  Ensures-elim none kn kf = kn refl
  Ensures-elim (some a) kn kf = kf a refl

pub Ensures-map {ℓ κ μ} :
    {A : Type ℓ} {P : A → Type κ} {Q : A → Type μ} {m : Result A}
    → Ensures P m
    → ((a : A) → m ≡ ok a → P a → Q a)
    → Ensures Q m
Ensures-map km kf = record { holds = λ a e. kf a e (km.holds a e) }
