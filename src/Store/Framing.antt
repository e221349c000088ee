-- ===== src/Store/Framing.antt =====
-- The text that validationKey hashes: a length, a colon and the value, for every value.
pub mod Binding
use ii_file_provider.Base.{
  ℕ, suc, ◌+◌, ◌≤◌, ◌≡◌, ◌≢◌, ◌⊎◌, inl, inr, refl, sym, ap, ◌∙◌, Bool, true, false, Bool-cases,
  List, [], ◌∷◌, ◌++◌, append_assoc, append-nil, Bytes, bytes_eq, bytes_eq_iff, length,
  length-append, arith, All, to_string, to_string-inj, to_string-IsDigit, IsDigit, codes, Result,
  ok, err, ◌>>=◌, OnOk, OnOk-bind, OnOk-ok, ok-inj, subst, flatten, if◌then◌else◌, ◌==◌,
}
use ii_file_provider.Hash.Object
use ii_file_provider.Hash.Object.{ObjectHash}
use ii_file_provider.Hash.Object.Digest as ObjectDigest
use ii_file_provider.Hash.Object.Digest.{
  Took, initial-Took, finalize-hash_state, Absorbs-Took, standard_hex,
}
use ii_file_provider.Hash.Object.Refines.{Absorbs, object_update-Absorbs}
use ii_file_provider.Hash.Words.{words_of}
use ii_file_provider.Store.Tables.{Session, ObjectRecord, Error}
use ii_file_provider.Store.Keys.{hashed, add, add_all, key_format, fields, validation_key}

-- What one `add` hashes, and what a sequence of them does.
abbrev pub frame : Bytes → Bytes
frame value = to_string (length value) ++ b':' ∷ value

abbrev pub frames : List Bytes → Bytes
frames [] = []
frames (value ∷ values) = frame value ++ frames values

-- Texts that begin with digits and a colon have the same digits before it.
colon_split :
    (xs ys : Bytes) (a b : Bytes)
    → All IsDigit xs
    → All IsDigit ys
    → xs ++ b':' ∷ a ≡ ys ++ b':' ∷ b
    → (xs ≡ ys) × (a ≡ b)
colon_split [] [] a b hx hy e = ground (arith, e)
colon_split [] (y ∷ ys) a b hx hy e = absurd (ground (arith, e, hy.0))
colon_split (x ∷ xs) [] a b hx hy e = absurd (ground (arith, e, hx.0))
colon_split (x ∷ xs) (y ∷ ys) a b hx hy e =
    let (same, left) = colon_split xs ys a b hx.1 hy.1 (ground (arith, e)) in
    (ground (arith, e, same), left)

-- Texts that begin with parts of the same length have the same parts.
pub append_split :
    (xs ys : Bytes) (a b : Bytes) → length xs ≡ length ys → xs ++ a ≡ ys ++ b → (xs ≡ ys) × (a ≡ b)
append_split [] [] a b n e = (refl, e)
append_split [] (y ∷ ys) a b n e = absurd (omega (arith, n))
append_split (x ∷ xs) [] a b n e = absurd (omega (arith, n))
append_split (x ∷ xs) (y ∷ ys) a b n e =
    let (same, left) = append_split xs ys a b (omega (arith, n)) (ground (arith, e)) in
    (ground (arith, e, same), left)

frames_nonempty : (x : Bytes) (xs : List Bytes) → 1 ≤ length (frames (x ∷ xs))
frames_nonempty x xs =
    omega
      (arith, length-append (frame x) (frames xs), length-append (to_string (length x)) (b':' ∷ x))

frame_assoc :
    (x : Bytes) (xs : List Bytes)
    → frames (x ∷ xs) ≡ to_string (length x) ++ b':' ∷ (x ++ frames xs)
frame_assoc x xs = append_assoc (to_string (length x)) (b':' ∷ x) (frames xs)

-- The framed text tells the values apart.
pub frames-inj : (xs ys : List Bytes) → frames xs ≡ frames ys → xs ≡ ys
frames-inj [] [] e = refl
frames-inj [] (y ∷ ys) e = absurd (omega (arith, ap length e, frames_nonempty y ys))
frames-inj (x ∷ xs) [] e = absurd (omega (arith, ap length e, frames_nonempty x xs))
frames-inj (x ∷ xs) (y ∷ ys) e =
    let (size, left) =
      colon_split (to_string (length x)) (to_string (length y)) (x ++ frames xs) (y ++ frames ys)
        (to_string-IsDigit (length x)) (to_string-IsDigit (length y))
        (sym (frame_assoc x xs) ∙ e ∙ frame_assoc y ys) in
    let (first, rest) =
      append_split x y (frames xs) (frames ys) (to_string-inj (length x) (length y) size) left in
    cc (first, frames-inj xs ys rest)

hashed-Took :
    (message bytes : Bytes) (h : ObjectHash) (r : Result Object.Error ObjectHash)
    → Took message h
    → Absorbs h bytes r
    → OnOk (Took (message ++ bytes)) (hashed r)
hashed-Took message bytes h (ok h') t a =
    let fits : length message + length bytes ≤ ObjectDigest.maximum_bytes =
      omega (arith, a.0, t.counted) in
    let (h'', e, t') = Absorbs-Took message bytes h (ok h') t fits a in
    subst (Took (message ++ bytes)) (sym (ok-inj e)) t'
hashed-Took message bytes h (err e) t a = tt

-- Behind every successful `update` the hash has taken in the bytes, too.
pub hashed-update-Took :
    (message bytes : Bytes) (h : ObjectHash)
    → Took message h
    → OnOk (Took (message ++ bytes)) (hashed (Object.update h bytes))
hashed-update-Took message bytes h t =
    hashed-Took message bytes h (Object.update h bytes) t (object_update-Absorbs h bytes t.valid)

add-Took :
    (message value : Bytes) (h : ObjectHash)
    → Took message h
    → OnOk (Took (message ++ frame value)) (add h value)
unfolding add
add-Took message value h t =
    let size = to_string (length value) in
    let P = Took (message ++ frame value) in
    OnOk-bind P (Took (message ++ size)) (hashed (Object.update h size)) _
      (hashed-update-Took message size h t)
      λ h₁ t₁.
        OnOk-bind P (Took ((message ++ size) ++ codes ":")) (hashed (Object.update h₁ (codes ":")))
          _ (hashed-update-Took (message ++ size) (codes ":") h₁ t₁)
          λ h₂ t₂.
            subst (λ m. OnOk (Took m) (hashed (Object.update h₂ value)))
              (append_assoc (message ++ size) (codes ":") value
                ∙ append_assoc message size (b':' ∷ value))
              (hashed-update-Took ((message ++ size) ++ codes ":") value h₂ t₂)

pub add_all-Took :
    (values : List Bytes) (message : Bytes) (h : ObjectHash)
    → Took message h
    → OnOk (Took (message ++ frames values)) (add_all h values)
unfolding add_all
add_all-Took [] message h t = rw append-nil t
add_all-Took (value ∷ values) message h t =
    OnOk-bind (Took (message ++ frames (value ∷ values))) (Took (message ++ frame value))
      (add h value) _ (add-Took message value h t)
      λ h' t'.
        subst (λ m. OnOk (Took m) (add_all h' values))
          (append_assoc message (frame value) (frames values))
          (add_all-Took values (message ++ frame value) h' t')
