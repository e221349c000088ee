-- ===== src/Base/Unique.antt =====
-- Lists without an element that is there twice.
use mathlib.Core.Path.{sym}
use mathlib.Core.Logic.{◌≢◌}
use mathlib.Core.List.{List, [], ◌∷◌, ◌++◌}
use ii_file_provider.Base.Lists.{All, All-append}

module _ {ℓ} {A : Type ℓ} where
  abbrev pub Distinct : List A → Type ℓ
  Distinct [] = Unit
  Distinct (x ∷ xs) = All (λ y. y ≢ x) xs × Distinct xs

  pub Distinct-snoc :
      (xs : List A) (a : A) → Distinct xs → All (λ y. y ≢ a) xs → Distinct (xs ++ a ∷ [])
  Distinct-snoc [] a d fresh = (tt, tt)
  Distinct-snoc (x ∷ xs) a d fresh = (
    All-append (λ y. y ≢ x) xs (a ∷ []) d.0 ((λ e. fresh.0 (sym e)), tt),
    Distinct-snoc xs a d.1 fresh.1,
  )

pub All-map {ℓ κ} :
    {A : Type ℓ} (P Q : A → Type κ) (xs : List A) → ((a : A) → P a → Q a) → All P xs → All Q xs
All-map P Q [] f h = tt
All-map P Q (x ∷ xs) f h = (f x h.0, All-map P Q xs f h.1)
