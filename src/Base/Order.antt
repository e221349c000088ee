-- ===== src/Base/Order.antt =====
-- The order of std::string.
use mathlib.Core.Path.{◌≡◌, refl}
use mathlib.Core.Bool.{true, false}
use mathlib.Core.List.{[], ◌∷◌}
use native.Mathlib.Omega.{arith}
use ii_file_provider.Base.Tests.{Bytes}
use ii_file_provider.Base.Search.{bytes_ltb}

-- `a <= b`, which is `!(b < a)`.
abbrev pub AtMost : Bytes → Bytes → Type 0
AtMost a b = bytes_ltb b a ≡ false

pub AtMost-refl : (a : Bytes) → AtMost a a
unfolding bytes_ltb
AtMost-refl [] = refl
AtMost-refl (x ∷ xs) = ground (arith, AtMost-refl xs)

pub AtMost-trans : (a b c : Bytes) → AtMost a b → AtMost b c → AtMost a c
unfolding bytes_ltb
AtMost-trans [] b c p q = refl
AtMost-trans (x ∷ xs) [] c p q = cc
AtMost-trans (x ∷ xs) (y ∷ ys) [] p q = q
AtMost-trans (x ∷ xs) (y ∷ ys) (z ∷ zs) p q = ground (arith, AtMost-trans xs ys zs)

pub lt-AtMost : (a b : Bytes) → bytes_ltb a b ≡ true → AtMost a b
unfolding bytes_ltb
lt-AtMost [] [] e = ground arith
lt-AtMost [] (y ∷ ys) e = refl
lt-AtMost (x ∷ xs) [] e = ground arith
lt-AtMost (x ∷ xs) (y ∷ ys) e = ground (arith, lt-AtMost xs ys)
