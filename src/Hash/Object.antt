-- ===== src/Hash/Object.antt =====
-- src/Objects/ObjectHash.cpp and ObjectHash.h, the branch without `__APPLE__`.
pub mod Refines
pub mod Digest
use ii_file_provider.Base.{
  ℕ, zero, suc, ◌+◌, ◌-◌, ◌*◌, ◌/◌, ◌%◌, ◌^◌, min, bit_and, bit_or, bit_xor, List, [], ◌∷◌, ◌++◌,
  Bytes, ◌==◌, ltb, leb, if◌then◌else◌, length, get_or, take, drop, replicate, Result, ok, err,
  ◌>>=◌, ◌>>◌, guard,
}
use ii_file_provider.Hash.Buffer.{copy_at}
use ii_file_provider.Hash.Stream.{big_endian}
use ii_file_provider.Hash.Words.{
  add32, rotr, not32, constants, State, words_of, initial_state, hex_digit,
}

-- `w[i]` for i < 16.
unfoldable pub load_words : ℕ → Bytes → List ℕ
load_words zero block = []
load_words (suc n) block =
    bit_or
      (bit_or (bit_or (get_or block 0 0 * 2 ^ 24) (get_or block 1 0 * 2 ^ 16))
        (get_or block 2 0 * 2 ^ 8))
      (get_or block 3 0)
    ∷ load_words n (drop 4 block)

-- `w[i]` for 16 ≤ i < 64; `i` is the number of words so far.
unfoldable pub extend_words : ℕ → List ℕ → List ℕ
extend_words zero w = w
extend_words (suc n) w =
    let i = length w in
    let x = get_or w (i - 15) 0 in
    let y = get_or w (i - 2) 0 in
    let s0 = bit_xor (bit_xor (rotr x 7) (rotr x 18)) (x / 2 ^ 3) in
    let s1 = bit_xor (bit_xor (rotr y 17) (rotr y 19)) (y / 2 ^ 10) in
    extend_words n
      (w ++ add32 (add32 (add32 (get_or w (i - 16) 0) s0) (get_or w (i - 7) 0)) s1 ∷ [])

unfoldable pub round : ℕ → ℕ → State → State
round k w s =
    let t1 =
      add32
        (add32
          (add32 (add32 s.h (bit_xor (bit_xor (rotr s.e 6) (rotr s.e 11)) (rotr s.e 25)))
            (bit_xor (bit_and s.e s.f) (bit_and (not32 s.e) s.g)))
          k)
        w in
    let t2 =
      add32 (bit_xor (bit_xor (rotr s.a 2) (rotr s.a 13)) (rotr s.a 22))
        (bit_xor (bit_xor (bit_and s.a s.b) (bit_and s.a s.c)) (bit_and s.b s.c)) in
    record {
      a = add32 t1 t2;
      b = s.a;
      c = s.b;
      d = s.c;
      e = add32 s.d t1;
      f = s.e;
      g = s.f;
      h = s.g;
    }

unfoldable pub rounds : List ℕ → List ℕ → State → State
unfolding round
rounds (k ∷ ks) (w ∷ ws) s = rounds ks ws (round k w s)
rounds [] _ s = s
rounds (k ∷ ks) [] s = s

unfoldable pub block : State → Bytes → State
block s bytes =
    let result = rounds constants (extend_words 48 (load_words 16 bytes)) s in
    record {
      a = add32 s.a result.a;
      b = add32 s.b result.b;
      c = add32 s.c result.c;
      d = add32 s.d result.d;
      e = add32 s.e result.e;
      f = add32 s.f result.f;
      g = add32 s.g result.g;
      h = add32 s.h result.h;
    }

-- The field `length` of the source is `total` here.
pub record ObjectHash : Type 0 where
  pub state : State
  pub pending : Bytes
  pub total : ℕ
  pub used : ℕ

pub data Error : Type 0 where
  length_error : Error

abbrev pub initial : ObjectHash
initial = record { state = initial_state; pending = replicate 64 0; total = 0; used = 0 }

-- One round of `while (!bytes.empty()) { … }`, with the bytes that are left.
advance : ObjectHash → Bytes → ObjectHash × Bytes
advance h bytes =
    let n = min (length bytes) (64 - h.used) in
    let filled = record h {
      pending = copy_at h.pending h.used (take n bytes);
      used = h.used + n;
    } in
    (
      if filled.used == 64
          then record filled { state = block h.state filled.pending; used = 0 }
          else filled,
      drop n bytes,
    )

-- A round takes a byte at least, so the number of bytes is fuel enough.
feed : ℕ → ObjectHash → Bytes → ObjectHash
unfolding advance
feed zero h bytes = h
feed (suc fuel) h bytes =
    let (next, left) = advance h bytes in
    let rest = feed fuel next left in if length bytes == 0 then h else rest

unfoldable pub update : ObjectHash → Bytes → Result Error ObjectHash
unfolding feed
update h bytes = do
  guard (leb (length bytes) (((2 ^ 64 - 1) / 8 + 2 ^ 64 - h.total) % 2 ^ 64)) length_error
  ok (feed (length bytes) (record h { total = h.total + length bytes }) bytes)

-- The chaining state that `finish` prints.
unfoldable pub finalize : ObjectHash → State
finalize h =
    let bits = h.total * 8 % 2 ^ 64 in
    let marked = copy_at h.pending h.used (0x80 ∷ []) in
    let used = h.used + 1 in
    let spilled = copy_at marked used (replicate (64 - used) 0) in
    let spill = ltb 56 used in
    let state = if spill then block h.state spilled else h.state in
    let pending = if spill then spilled else marked in
    let start = if spill then 0 else used in
    let zeros = copy_at pending start (replicate (56 - start) 0) in
    block state (copy_at zeros 56 (big_endian 8 bits))

-- `for (int shift = 28; shift >= 0; shift -= 4)`, with `n` nibbles left.
unfoldable pub nibbles : ℕ → ℕ → Bytes
unfolding hex_digit
nibbles zero word = []
nibbles (suc n) word = hex_digit (word / 2 ^ (4 * n) % 16) ∷ nibbles n word

unfoldable pub hex : List ℕ → Bytes
unfolding nibbles
hex [] = []
hex (w ∷ ws) = nibbles 8 w ++ hex ws

unfoldable pub finish : ObjectHash → Bytes
unfolding finalize hex
finish h = hex (words_of (finalize h))

-- `ObjectHash::digest`.
unfoldable pub digest : Bytes → Result Error Bytes
unfolding update finish
digest bytes = do h ← update initial bytes; ok (finish h)
