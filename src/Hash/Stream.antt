-- ===== src/Hash/Stream.antt =====
-- What a block hash promises of a byte stream, whatever the pieces it arrives in: bytes are taken
-- one at a time, and every 64 of them are compressed into the chaining state.
use ii_file_provider.Base.{
  ℕ, zero, suc, ◌+◌, ◌-◌, ◌*◌, ◌/◌, ◌%◌, ◌^◌, ◌<◌, ◌≡◌, refl, ap, ◌∙◌, [], ◌∷◌, ◌++◌, append-nil,
  append_assoc, Bytes, ◌==◌, if◌then◌else◌, arith, length, length-append, replicate,
}

-- The chaining state, and the bytes that wait for a full block.
pub record Absorbed (S : Type 0) : Type 0 where
  pub state : S
  pub tail : Bytes

-- The `n`-byte big-endian representation of `bits`.
abbrev pub big_endian : ℕ → ℕ → Bytes
big_endian zero bits = []
big_endian (suc n) bits = (bits / 2 ^ (8 * n) % 256) ∷ big_endian n bits

-- FIPS 180-4, 5.1.1: a one bit, as few zeros as fill the last block, and the bit length.
abbrev pub padding : ℕ → Bytes
padding bytes = 0x80 ∷ (replicate ((119 - bytes % 64) % 64) 0 ++ big_endian 8 (bytes * 8))

module _ {S : Type 0} (compress : S → Bytes → S) where
  absorb_byte : Absorbed S → ℕ → Absorbed S
  absorb_byte s c =
      let block = s.tail ++ c ∷ [] in
      if length block == 64
      then record { state = compress s.state block; tail = [] }
      else record { state = s.state; tail = block }

  unfoldable pub absorb : Absorbed S → Bytes → Absorbed S
  unfolding absorb_byte
  absorb s [] = s
  absorb s (c ∷ cs) = absorb (absorb_byte s c) cs

  unfoldable pub hash_state : S → Bytes → S
  unfolding absorb
  hash_state start message =
      (absorb (record { state = start; tail = [] }) (message ++ padding (length message))).state

  pub absorb-append :
      (s : Absorbed S) (xs ys : Bytes) → absorb s (xs ++ ys) ≡ absorb (absorb s xs) ys
  unfolding absorb
  absorb-append s [] ys = refl
  absorb-append s (x ∷ xs) ys = absorb-append (absorb_byte s x) xs ys

  absorb_byte_short :
      (st : S) (t : Bytes) (x : ℕ)
      → length t + 1 < 64
      → absorb_byte (record { state = st; tail = t }) x ≡ record { state = st; tail = t ++ x ∷ [] }
  unfolding absorb_byte
  absorb_byte_short st t x h = ground (arith, length-append t (x ∷ []))

  absorb_byte_full :
      (st : S) (t : Bytes) (x : ℕ)
      → length t + 1 ≡ 64
      → absorb_byte (record { state = st; tail = t }) x
        ≡ record { state = compress st (t ++ x ∷ []); tail = [] }
  unfolding absorb_byte
  absorb_byte_full st t x h = ground (arith, length-append t (x ∷ []))

  -- Bytes that do not fill the block only wait.
  pub absorb_short :
      (st : S) (t xs : Bytes)
      → length t + length xs < 64
      → absorb (record { state = st; tail = t }) xs ≡ record { state = st; tail = t ++ xs }
  unfolding absorb
  absorb_short st t [] h = rw append-nil
  absorb_short st t (x ∷ xs) h =
      ap (λ s. absorb s xs) (absorb_byte_short st t x (omega arith))
      ∙ absorb_short st (t ++ x ∷ []) xs (omega (arith, length-append t (x ∷ [])))
      ∙ rw append_assoc

  -- Bytes that fill it exactly are compressed with those that waited.
  pub absorb_full :
      (st : S) (t xs : Bytes)
      → 0 < length xs
      → length t + length xs ≡ 64
      → absorb (record { state = st; tail = t }) xs
        ≡ record { state = compress st (t ++ xs); tail = [] }
  unfolding absorb
  absorb_full st t [] p h = elim p [ ]
  absorb_full st t (x ∷ []) p h = absorb_byte_full st t x (omega arith)
  absorb_full st t (x ∷ y ∷ xs) p h =
      ap (λ s. absorb s (y ∷ xs)) (absorb_byte_short st t x (omega arith))
      ∙ absorb_full st (t ++ x ∷ []) (y ∷ xs) (omega arith)
          (omega (arith, length-append t (x ∷ [])))
      ∙ rw append_assoc
