-- ===== src/Base/Results.antt =====
-- Exceptions as values: `err` carries what tells the thrown exceptions apart.
use mathlib.Core.Path.{◌≡◌, refl, subst, ap}
use mathlib.Core.Bool.{Bool, true, false}
use mathlib.Core.Option.{Option, none, some}

pub data Result {ℓ} (E : Type 0) (A : Type ℓ) : Type ℓ where
  ok : A → Result E A
  err : E → Result E A

-- An absent value throws.
abbrev pub or_fail {ℓ} : {E : Type 0} {A : Type ℓ} → Option A → E → Result E A
or_fail (some a) thrown = ok a
or_fail none thrown = err thrown

-- `if (!test) throw thrown;`
abbrev pub guard : {E : Type 0} → Bool → E → Result E (Unit {0})
guard false thrown = err thrown
guard true thrown = ok tt

infixl 5 ◌>>=◌
abbrev pub ◌>>=◌ {ℓ κ} :
    {E : Type 0} {A : Type ℓ} {B : Type κ} → Result E A → (A → Result E B) → Result E B
err thrown >>= continue = err thrown
ok a >>= continue = continue a

infixl 5 ◌>>◌
abbrev pub ◌>>◌ {κ} : {E : Type 0} {B : Type κ} → Result E (Unit {0}) → Result E B → Result E B
first >> second = first >>= λ _. second

module _ {ℓ κ} {E : Type 0} {A : Type ℓ} {B : Type κ} where
  -- A successful chain went through a successful first step.
  pub >>=-eq-ok :
      (first : Result E A) (continue : A → Result E B) {b : B}
      → (first >>= continue) ≡ ok b
      → (a : A) × (first ≡ ok a) × (continue a ≡ ok b)
  >>=-eq-ok (err thrown) continue e = cc
  >>=-eq-ok (ok a) continue e = (a, refl, e)

-- What holds of a result, if it is no error.
abbrev pub OnOk {ℓ κ} : {E : Type 0} {A : Type ℓ} → (A → Type κ) → Result E A → Type κ
OnOk P (ok a) = P a
OnOk P (err e) = Unit

abbrev pub stored {ℓ} : {E : Type 0} {A : Type ℓ} → A → Result E A
stored a = ok a

pub ok-inj {ℓ} : {E : Type 0} {A : Type ℓ} {a b : A} → stored {E = E} a ≡ ok b → a ≡ b
ok-inj e = cc

pub OnOk-ok {ℓ κ} :
    {E : Type 0} {A : Type ℓ} (P : A → Type κ) (m : Result E A) (a : A) → OnOk P m → m ≡ ok a → P a
OnOk-ok P (ok b) a h e = subst P (ok-inj e) h
OnOk-ok P (err x) a h e = cc

module _ {ℓ κ μ} {E : Type 0} {A : Type ℓ} {B : Type κ} (P : B → Type μ) where
  -- Behind a first step, by what it returns.
  pub OnOk-after :
      (m : Result E A) (f : A → Result E B) → ((a : A) → m ≡ ok a → OnOk P (f a)) → OnOk P (m >>= f)
  OnOk-after (ok a) f h = h a refl
  OnOk-after (err e) f h = tt

  -- By what holds of a first step's result.
  pub OnOk-bind :
      (Q : A → Type 0) (m : Result E A) (f : A → Result E B)
      → OnOk Q m
      → ((a : A) → Q a → OnOk P (f a))
      → OnOk P (m >>= f)
  OnOk-bind Q (ok a) f g h = h a g
  OnOk-bind Q (err e) f g h = tt

module _ {κ μ} {E : Type 0} {B : Type κ} (P : B → Type μ) where
  -- Behind a guard that has been passed.
  pub OnOk-guard :
      (test : Bool) (e : E) (f : Unit {0} → Result E B)
      → (test ≡ true → OnOk P (f tt))
      → OnOk P (guard test e >>= f)
  OnOk-guard true e f h = h refl
  OnOk-guard false e f h = tt

pub or_fail-ok {ℓ} :
    {E : Type 0} {A : Type ℓ} (o : Option A) (e : E) (a : A) → or_fail o e ≡ ok a → o ≡ some a
or_fail-ok none e a h = cc
or_fail-ok (some b) e a h = ap some (ok-inj h)

pub OnOk-map {ℓ κ} :
    {E : Type 0} {A : Type ℓ} (P Q : A → Type κ) (m : Result E A)
    → ((a : A) → P a → Q a)
    → OnOk P m
    → OnOk Q m
OnOk-map P Q (ok a) f h = f a h
OnOk-map P Q (err e) f h = tt

pub OnOk-both {ℓ κ} :
    {E : Type 0} {A : Type ℓ} (P Q : A → Type κ) (m : Result E A)
    → OnOk P m
    → OnOk Q m
    → OnOk (λ a. P a × Q a) m
OnOk-both P Q (ok a) x y = (x, y)
OnOk-both P Q (err e) x y = tt

-- By what every returned value fulfils.
pub OnOk-from {ℓ κ} :
    {E : Type 0} {A : Type ℓ} (P : A → Type κ) (m : Result E A)
    → ((a : A) → m ≡ ok a → P a)
    → OnOk P m
OnOk-from P (ok a) h = h a refl
OnOk-from P (err e) h = tt
