-- ===== src/Author/Ledger/Order.antt =====
-- The order of std::string, which Native/src/Core/Authorship.cpp compares stamps by.
use ii_file_provider.Base.{[], ◌∷◌, Bytes, ◌≡◌, ◌≢◌, ◌⊎◌, refl, Bool-cases, inl, inr}
use ii_file_provider.Base.Search.{bytes_ltb}
pub use ii_file_provider.Base.Order.{AtMost, AtMost-refl, AtMost-trans, lt-AtMost}
use ii_file_provider.Author.Ledger.{later_of}

AtMost-empty : (b : Bytes) → AtMost [] b
unfolding bytes_ltb
AtMost-empty b = refl

later_of-cases :
    (modified stamp : Bytes)
    → ((later_of modified stamp ≡ stamp) × AtMost modified stamp)
      ⊎ ((later_of modified stamp ≡ modified) × AtMost stamp modified)
unfolding later_of
later_of-cases [] stamp = inl (refl, AtMost-empty stamp)
later_of-cases (c ∷ cs) stamp = elim (Bool-cases (bytes_ltb (c ∷ cs) stamp)) [
  | inl e ↦ inl (rw e refl, lt-AtMost (c ∷ cs) stamp e)
  | inr e ↦ inr (rw e refl, e)
]

pub later_of-above_both :
    (modified stamp : Bytes)
    → AtMost modified (later_of modified stamp) × AtMost stamp (later_of modified stamp)
later_of-above_both modified stamp = elim (later_of-cases modified stamp) [
  | inl (e, h) ↦ rw e (h, AtMost-refl stamp)
  | inr (e, h) ↦ rw e (AtMost-refl modified, h)
]

-- What is not below a text with a character has one.
pub AtMost-nonempty : (a b : Bytes) → AtMost a b → a ≢ [] → b ≢ []
unfolding bytes_ltb
AtMost-nonempty [] b h n = λ e. n refl
AtMost-nonempty (x ∷ xs) [] h n = cc
AtMost-nonempty (x ∷ xs) (y ∷ ys) h n = λ e. cc
