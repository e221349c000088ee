-- ===== src/Base/Text.antt =====
-- Text literals as bytes, decimal numbers, and searches in lists.
use Prim.Native.Char.{code}
use Prim.Native.String.{String}
use Prim.Native.Nat.{ℕ, zero, suc, ◌+◌, ◌-◌, ◌*◌, ◌/◌, ◌%◌, ◌≤◌, ◌<◌}
use mathlib.Core.Path.{◌≡◌, refl, sym, ap, ◌∙◌, subst}
use mathlib.Core.Bool.{Bool, true, false}
use mathlib.Core.Option.{Option, none, some}
use mathlib.Core.List.{List, [], ◌∷◌, ◌++◌}
use mathlib.Core.Logic.{inl, inr}
use native.Mathlib.Omega.{arith}
use ii_file_provider.Base.Lists.{All, All-append}
use ii_file_provider.Base.Tests.{tests, Bool-cases, Bytes, ltb, if◌then◌else◌}

-- The bytes of an ASCII literal.
abbrev pub codes : String → Bytes
codes String.[] = []
codes (String.◌∷◌ c s) = code c ∷ codes s

-- The decimal digits of `n`, given fuel for each of them.
decimal_digits : ℕ → ℕ → Bytes
decimal_digits zero n = []
decimal_digits (suc fuel) n =
    let rest = decimal_digits fuel (n / 10) in
    if ltb n 10 then (b'0' + n) ∷ [] else rest ++ (b'0' + n % 10) ∷ []

-- `std::to_string`.
unfoldable pub to_string : ℕ → Bytes
unfolding decimal_digits
to_string n = decimal_digits (suc n) n

-- The number that decimal digits stand for, behind the digits of `acc`.
abbrev pub digits_value : ℕ → Bytes → ℕ
digits_value acc [] = acc
digits_value acc (c ∷ cs) = digits_value (acc * 10 + (c - b'0')) cs

digits_value-snoc :
    (cs : Bytes) (acc c : ℕ)
    → digits_value acc (cs ++ c ∷ []) ≡ digits_value acc cs * 10 + (c - b'0')
digits_value-snoc [] acc c = refl
digits_value-snoc (x ∷ cs) acc c = digits_value-snoc cs (acc * 10 + (x - b'0')) c

decimal_digits_value : (fuel n : ℕ) → n < fuel → digits_value 0 (decimal_digits fuel n) ≡ n
unfolding decimal_digits
decimal_digits_value zero n h = omega arith
decimal_digits_value (suc fuel) n h = elim (Bool-cases (ltb n 10)) [
  | inl small ↦ rw small (omega arith)
  | inr large ↦
      let rest = decimal_digits_value fuel (n / 10) (omega (tests, large)) in
      let whole = digits_value-snoc (decimal_digits fuel (n / 10)) 0 (b'0' + n % 10) in
      rw large (omega (arith, rest, whole))
]

-- Two numbers that print the same are the same.
pub to_string-inj : (m n : ℕ) → to_string m ≡ to_string n → m ≡ n
unfolding to_string
to_string-inj m n e =
    sym (decimal_digits_value (suc m) m (omega arith))
    ∙ ap (digits_value 0) e
    ∙ decimal_digits_value (suc n) n (omega arith)

-- A printed number has digits only.
abbrev pub IsDigit : ℕ → Type 0
IsDigit c = (b'0' ≤ c) × (c ≤ b'9')

decimal_digits-IsDigit : (fuel n : ℕ) → All IsDigit (decimal_digits fuel n)
unfolding decimal_digits
decimal_digits-IsDigit zero n = tt
decimal_digits-IsDigit (suc fuel) n = elim (Bool-cases (ltb n 10)) [
  | inl small ↦ rw small ((omega (tests, small), omega (tests, small)), tt)
  | inr large ↦ rw large (
      All-append IsDigit (decimal_digits fuel (n / 10)) ((b'0' + n % 10) ∷ [])
        (decimal_digits-IsDigit fuel (n / 10)) ((omega arith, omega arith), tt))
]

pub to_string-IsDigit : (n : ℕ) → All IsDigit (to_string n)
unfolding to_string
to_string-IsDigit n = decimal_digits-IsDigit (suc n) n

module _ {ℓ} {A : Type ℓ} where
  -- The first row that a `SELECT` finds.
  unfoldable pub find : (A → Bool) → List A → Option A
  find p [] = none
  find p (x ∷ xs) = if p x then some x else find p xs

  pub find-holds : (p : A → Bool) (xs : List A) (a : A) → find p xs ≡ some a → p a ≡ true
  unfolding find
  find-holds p [] a e = ground arith
  find-holds p (x ∷ xs) a e =
      let later = find-holds p xs a in
      elim (Bool-cases (p x)) [
        | inl hit ↦ subst (λ y. p y ≡ true) (some-inj (rw hit at e)) hit
        | inr miss ↦ later (rw miss at e)
      ]
    where
      some-inj : {a b : A} → some a ≡ some b → a ≡ b
      some-inj e = cc

  -- The rows that a `WHERE` keeps, in order.
  unfoldable pub select : (A → Bool) → List A → List A
  select p [] = []
  select p (x ∷ xs) = if p x then x ∷ select p xs else select p xs

  unfoldable pub update_rows : (A → Bool) → (A → A) → List A → List A
  update_rows p f [] = []
  update_rows p f (x ∷ xs) = (if p x then f x else x) ∷ update_rows p f xs

abbrev pub is_some {ℓ} : {A : Type ℓ} → Option A → Bool
is_some none = false
is_some (some a) = true
