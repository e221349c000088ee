-- ===== src/Hash/Agree.antt =====
-- Native/src/Crypto/Sha256.cpp beside src/Objects/ObjectHash.cpp.
use ii_file_provider.Base.{
  ℕ, zero, suc, ◌/◌, ◌%◌, ◌^◌, ◌≡◌, refl, sym, ap, ◌∙◌, List, [], ◌∷◌, Bytes, arith, drop, Result,
  ok, err,
}
use mathlib.Core.Path.{fun_ext}
use ii_file_provider.Hash.Words.{State, add32, constants}
use ii_file_provider.Hash.Native
use ii_file_provider.Hash.Native.Digest as NativeDigest
use ii_file_provider.Hash.Object
use ii_file_provider.Hash.Object.Digest as ObjectDigest

add32_assoc : (a b c : ℕ) → add32 (add32 a b) c ≡ add32 a (add32 b c)
unfolding add32
add32_assoc a b c = omega arith

round_agree : (k w : ℕ) (s : State) → Native.round k w s ≡ Object.round k w s
unfolding Native.round Object.round
round_agree k w s = rw add32_assoc

rounds_agree : (ks ws : List ℕ) (s : State) → Native.rounds ks ws s ≡ Object.rounds ks ws s
unfolding Native.rounds Object.rounds
rounds_agree [] ws s = refl
rounds_agree (k ∷ ks) [] s = refl
rounds_agree (k ∷ ks) (w ∷ ws) s =
    rounds_agree ks ws (Native.round k w s) ∙ ap (Object.rounds ks ws) (round_agree k w s)

load_words_agree : (n : ℕ) (block : Bytes) → Native.load_words n block ≡ Object.load_words n block
unfolding Native.load_words Object.load_words
load_words_agree zero block = refl
load_words_agree (suc n) block = cc (load_words_agree n (drop 4 block))

extend_words_agree : (n : ℕ) (ws : List ℕ) → Native.extend_words n ws ≡ Object.extend_words n ws
unfolding Native.extend_words Object.extend_words
extend_words_agree zero ws = refl
extend_words_agree (suc n) ws = extend_words_agree n _

schedule_agree :
    (s : State) (block : Bytes)
    → Native.rounds constants (Native.extend_words 48 (Native.load_words 16 block)) s
      ≡ Object.rounds constants (Object.extend_words 48 (Object.load_words 16 block)) s
schedule_agree s block =
    rounds_agree constants (Native.extend_words 48 (Native.load_words 16 block)) s
    ∙ ap (λ ws. Object.rounds constants ws s)
        (extend_words_agree 48 (Native.load_words 16 block)
          ∙ ap (Object.extend_words 48) (load_words_agree 16 block))

abbrev add_words : State → State → State
add_words s r = record {
  a = add32 s.a r.a;
  b = add32 s.b r.b;
  c = add32 s.c r.c;
  d = add32 s.d r.d;
  e = add32 s.e r.e;
  f = add32 s.f r.f;
  g = add32 s.g r.g;
  h = add32 s.h r.h;
}

-- Both compress a block in the same way.
pub transform-block : (s : State) (block : Bytes) → Native.transform s block ≡ Object.block s block
unfolding Native.transform Object.block
transform-block s block = ap (add_words s) (schedule_agree s block)

-- The high nibble of a byte of a word.
high_nibble :
    (w : ℕ)
    → (w / 2 ^ 24 % 256 / 16 ≡ w / 2 ^ 28 % 16)
      × (w / 2 ^ 16 % 256 / 16 ≡ w / 2 ^ 20 % 16)
      × (w / 2 ^ 8 % 256 / 16 ≡ w / 2 ^ 12 % 16)
      × (w / 2 ^ 0 % 256 / 16 ≡ w / 2 ^ 4 % 16)
high_nibble w = (omega arith, omega arith, omega arith, omega arith)

low_nibble : (v : ℕ) → v % 256 % 16 ≡ v % 16
low_nibble v = omega arith

hex_agree : (ws : List ℕ) → Native.hex (Native.flat_bytes ws) ≡ Object.hex ws
unfolding Native.hex Native.flat_bytes Object.hex
hex_agree [] = refl
hex_agree (w ∷ ws) =
    let high = high_nibble w in
    cc (
      high.0,
      high.1,
      high.2,
      high.3,
      low_nibble (w / 2 ^ 24),
      low_nibble (w / 2 ^ 16),
      low_nibble (w / 2 ^ 8),
      low_nibble (w / 2 ^ 0),
      hex_agree ws,
    )

-- Both print the same text for a message.
pub standard_hex_agree :
    (message : Bytes) → NativeDigest.standard_hex message ≡ ObjectDigest.standard_hex message
standard_hex_agree message =
    hex_agree _ ∙ rw (fun_ext (λ s. fun_ext (λ block. transform-block s block)))

-- What the two entry points may return for one message: the same text, or an exception from both.
abbrev pub SameOutcome : Result Native.Error Bytes → Result Object.Error Bytes → Type 0
SameOutcome (ok x) (ok y) = x ≡ y
SameOutcome (ok x) (err d) = ⊥
SameOutcome (err e) (ok y) = ⊥
SameOutcome (err e) (err d) = Unit {0}

Prints-SameOutcome :
    (message : Bytes) (x : Result Native.Error Bytes) (y : Result Object.Error Bytes)
    → NativeDigest.Prints message x
    → ObjectDigest.Prints message y
    → SameOutcome x y
Prints-SameOutcome message (ok x) (ok y) p q = p.1 ∙ standard_hex_agree message ∙ sym q.1
Prints-SameOutcome message (ok x) (err d) p q = omega (arith, p.0, q)
Prints-SameOutcome message (err e) (ok y) p q = omega (arith, p, q.0)
Prints-SameOutcome message (err e) (err d) p q = tt

-- On every message the native `sha256` and `ObjectHash::digest` print the same text, or both throw.
pub sha256-digest : (message : Bytes) → SameOutcome (Native.sha256 message) (Object.digest message)
sha256-digest message =
    Prints-SameOutcome message _ _ (NativeDigest.sha256-Prints message)
      (ObjectDigest.digest-Prints message)
