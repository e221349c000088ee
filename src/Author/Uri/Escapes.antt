-- ===== src/Author/Uri/Escapes.antt =====
-- The per cent signs of a text that validUri of Native/src/Core/Authorship.cpp takes.
use ii_file_provider.Base.{
  ℕ, zero, suc, ◌≤◌, ◌≡◌, refl, Bool, true, false, not, ◌&&◌, ◌||◌, [], ◌∷◌, Bytes, ltb, leb,
  leb→le, ◌==◌, if◌then◌else◌, length, drop, get_or, arith, Bool-cases, inl, inr, length-drop,
  ==-false→ne,
}
use ii_file_provider.Base.Search.{is_xdigit}
use ii_file_provider.Author.Unicode.{Utf8proc}
use ii_file_provider.Author.Uri.{
  escapes_allowed, valid_uri, text_allowed, scheme_allowed, scheme_end,
}

-- What a per cent sign at the head of a text wants behind it.
abbrev pub Escaped : Bytes → Type 0
Escaped [] = Unit
Escaped (c ∷ cs) =
    c ≡ b'%'
    → (2 ≤ length cs) × (is_xdigit (get_or cs 0 0) ≡ true) × (is_xdigit (get_or cs 1 0) ≡ true)

-- Every per cent sign of the text starts an escape.
abbrev pub AllEscaped : Bytes → Type 0
AllEscaped [] = Unit
AllEscaped (c ∷ cs) = Escaped (c ∷ cs) × AllEscaped cs

not_percent : (c : ℕ) → is_xdigit c ≡ true → c ≡ b'%' → ⊥
not_percent c h e = ground arith

and-three : (a b c : Bool) → a && b && c ≡ true → (a ≡ true) × (b ≡ true) × (c ≡ true)
and-three a b c e = ground arith

if-true :
    (test value : Bool) → (if test then value else false) ≡ true → (test ≡ true) × (value ≡ true)
if-true true value e = (refl, e)
if-true false value e = cc

-- Two hexadecimal digits before a text whose per cent signs are all in order.
past_digits :
    (cs : Bytes)
    → is_xdigit (get_or cs 0 0) ≡ true
    → is_xdigit (get_or cs 1 0) ≡ true
    → AllEscaped (drop 2 cs)
    → AllEscaped cs
past_digits [] a b h = tt
past_digits (c ∷ []) a b h = ((λ e. absurd (not_percent c a e)), tt)
past_digits (c ∷ d ∷ cs) a b h =
    ((λ e. absurd (not_percent c a e)), ((λ e. absurd (not_percent d b e)), h))

escapes_allowed-AllEscaped :
    (fuel : ℕ) (value : Bytes)
    → length value ≤ fuel
    → escapes_allowed fuel value ≡ true
    → AllEscaped value
unfolding escapes_allowed
escapes_allowed-AllEscaped fuel [] h e = tt
escapes_allowed-AllEscaped zero (c ∷ cs) h e = absurd (omega arith)
escapes_allowed-AllEscaped (suc fuel) (c ∷ cs) h e = elim (Bool-cases (c == b'%')) [
  | inl sign ↦
      let t = if-true _ (escapes_allowed fuel (drop 2 cs)) (rw sign at e) in
      let s = and-three (leb 2 (length cs)) _ _ t.0 in
      let long = length-drop 2 cs in
      (
        (λ _. (leb→le 2 (length cs) s.0, s.1, s.2)),
        past_digits cs s.1 s.2
            (escapes_allowed-AllEscaped fuel (drop 2 cs) (omega (arith, long)) t.1),
      )
  | inr other ↦ (
    (λ p. absurd (==-false→ne c b'%' other p)),
    escapes_allowed-AllEscaped fuel cs (omega arith) (rw other at e),
  )
]

-- A text that `validUri` takes has 1 to 8192 bytes, and each of its per cent signs has two
-- hexadecimal digits behind it.
pub valid_uri-AllEscaped :
    (u : Utf8proc) (value : Bytes) (absolute : Bool)
    → valid_uri u value absolute ≡ true
    → AllEscaped value × (1 ≤ length value) × (length value ≤ 8192)
unfolding valid_uri
valid_uri-AllEscaped u value absolute e =
    let s =
      and-five (not (length value == 0 || ltb 8192 (length value))) (text_allowed u value)
        (scheme_allowed (scheme_end value) absolute value) (escapes_allowed (length value) value) _
        e in
    let size = sized (length value) s.0 in
    (escapes_allowed-AllEscaped (length value) value (omega arith) s.1, size.0, size.1)
  where
    and-five : (a b c d f : Bool) → a && b && c && d && f ≡ true → (a ≡ true) × (d ≡ true)
    and-five a b c d f h = ground arith

    sized : (n : ℕ) → not (n == 0 || ltb 8192 n) ≡ true → (1 ≤ n) × (n ≤ 8192)
    sized n h = ground arith
