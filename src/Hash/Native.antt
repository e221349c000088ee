-- ===== src/Hash/Native.antt =====
-- Native/src/Crypto/Sha256.cpp and Sha256_p.h.
pub mod Refines
pub mod Digest
use ii_file_provider.Base.{
  ℕ, zero, suc, ◌+◌, ◌-◌, ◌*◌, ◌/◌, ◌%◌, ◌^◌, min, bit_and, bit_or, bit_xor, List, [], ◌∷◌, ◌++◌,
  Bytes, ◌==◌, ltb, leb, if◌then◌else◌, length, get_or, take, drop, replicate, Result, ok, err,
  ◌>>=◌, ◌>>◌, guard,
}
use ii_file_provider.Hash.Buffer.{copy_at}
use ii_file_provider.Hash.Stream.{big_endian}
use ii_file_provider.Hash.Words.{
  add32, rotr, not32, constants, State, words_of, initial_state, hex_digit,
}

-- `words[i]` for i < 16, from `words.size()` words left to load.
unfoldable pub load_words : ℕ → Bytes → List ℕ
load_words zero block = []
load_words (suc n) block =
    bit_or
      (bit_or (bit_or (get_or block 0 0 * 2 ^ 24) (get_or block 1 0 * 2 ^ 16))
        (get_or block 2 0 * 2 ^ 8))
      (get_or block 3 0)
    ∷ load_words n (drop 4 block)

-- `words[i]` for 16 ≤ i < 64; `i` is the number of words so far.
unfoldable pub extend_words : ℕ → List ℕ → List ℕ
extend_words zero words = words
extend_words (suc n) words =
    let i = length words in
    let x = get_or words (i - 15) 0 in
    let y = get_or words (i - 2) 0 in
    let small0 = bit_xor (bit_xor (rotr x 7) (rotr x 18)) (x / 2 ^ 3) in
    let small1 = bit_xor (bit_xor (rotr y 17) (rotr y 19)) (y / 2 ^ 10) in
    let word =
      add32 (add32 (add32 (get_or words (i - 16) 0) small0) (get_or words (i - 7) 0)) small1 in
    extend_words n (words ++ word ∷ [])

unfoldable pub round : ℕ → ℕ → State → State
round constant word s =
    let big1 = bit_xor (bit_xor (rotr s.e 6) (rotr s.e 11)) (rotr s.e 25) in
    let choice = bit_xor (bit_and s.e s.f) (bit_and (not32 s.e) s.g) in
    let first = add32 (add32 (add32 (add32 s.h big1) choice) constant) word in
    let big0 = bit_xor (bit_xor (rotr s.a 2) (rotr s.a 13)) (rotr s.a 22) in
    let majority = bit_xor (bit_xor (bit_and s.a s.b) (bit_and s.a s.c)) (bit_and s.b s.c) in
    record {
      a = add32 (add32 first big0) majority;
      b = s.a;
      c = s.b;
      d = s.c;
      e = add32 s.d first;
      f = s.e;
      g = s.f;
      h = s.g;
    }

unfoldable pub rounds : List ℕ → List ℕ → State → State
unfolding round
rounds (k ∷ ks) (w ∷ ws) s = rounds ks ws (round k w s)
rounds [] _ s = s
rounds (k ∷ ks) [] s = s

unfoldable pub transform : State → Bytes → State
transform s block =
    let r = rounds constants (extend_words 48 (load_words 16 block)) s in
    record {
      a = add32 s.a r.a;
      b = add32 s.b r.b;
      c = add32 s.c r.c;
      d = add32 s.d r.d;
      e = add32 s.e r.e;
      f = add32 s.f r.f;
      g = add32 s.g r.g;
      h = add32 s.h r.h;
    }

-- `m_state`, `m_pending`, `m_bytes` and `m_pendingSize`.
pub record Sha256 : Type 0 where
  pub state : State
  pub pending : Bytes
  pub bytes : ℕ
  pub pending_size : ℕ

pub data Error : Type 0 where
  length_error : Error

abbrev pub initial : Sha256
initial = record { state = initial_state; pending = replicate 64 0; bytes = 0; pending_size = 0 }

abbrev pub maximum_bytes : ℕ
maximum_bytes = (2 ^ 64 - 1) / 8

-- `if (m_pendingSize != 0) { … }`, with the input that is left.
fill_pending : Sha256 → Bytes → Sha256 × Bytes
fill_pending h input =
    let taken = min (length input) (64 - h.pending_size) in
    let filled = record h {
      pending = copy_at h.pending h.pending_size (take taken input);
      pending_size = h.pending_size + taken;
    } in
    if h.pending_size == 0 then (h, input) else (
      if filled.pending_size == 64
          then record filled { state = transform h.state filled.pending; pending_size = 0 }
          else filled,
      drop taken input,
    )

-- `while (input.size() >= 64) { … }`; a round takes 64 bytes, so the input's length is fuel enough.
whole_blocks : ℕ → Sha256 → Bytes → Sha256 × Bytes
whole_blocks zero h input = (h, input)
whole_blocks (suc fuel) h input =
    let rest =
      whole_blocks fuel (record h { state = transform h.state (take 64 input) }) (drop 64 input) in
    if leb 64 (length input) then rest else (h, input)

-- `if (!input.empty()) { … }`.
keep_tail : Sha256 → Bytes → Sha256
keep_tail h input =
    if length input == 0
    then h
    else record h { pending = copy_at h.pending 0 input; pending_size = length input }

-- `update` behind its check of the length.
take_in : Sha256 → Bytes → Sha256
unfolding fill_pending whole_blocks keep_tail
take_in h input =
    let (filled, left) = fill_pending (record h { bytes = h.bytes + length input }) input in
    let (whole, tail) = whole_blocks (length left) filled left in keep_tail whole tail

unfoldable pub update : Sha256 → Bytes → Result Error Sha256
unfolding take_in
update h input = do
  guard (leb (length input) ((maximum_bytes + 2 ^ 64 - h.bytes) % 2 ^ 64)) length_error
  ok (take_in h input)

-- The chaining state after the padding.
unfoldable pub finalize : Sha256 → State
finalize h =
    let bits = h.bytes * 8 % 2 ^ 64 in
    let marked = copy_at h.pending h.pending_size (0x80 ∷ []) in
    let used = h.pending_size + 1 in
    let spilled = copy_at marked used (replicate (64 - used) 0) in
    let spill = ltb 56 used in
    let state = if spill then transform h.state spilled else h.state in
    let block = if spill then spilled else marked in
    let start = if spill then 0 else used in
    let zeros = copy_at block start (replicate (56 - start) 0) in
    transform state (copy_at zeros 56 (big_endian 8 bits))

unfoldable pub word_bytes : ℕ → Bytes
word_bytes w = (w / 2 ^ 24 % 256) ∷ (w / 2 ^ 16 % 256) ∷ (w / 2 ^ 8 % 256) ∷ (w / 2 ^ 0 % 256) ∷ []

unfoldable pub flat_bytes : List ℕ → Bytes
unfolding word_bytes
flat_bytes [] = []
flat_bytes (w ∷ ws) = word_bytes w ++ flat_bytes ws

unfoldable pub digest : Sha256 → Bytes
unfolding finalize flat_bytes
digest h = flat_bytes (words_of (finalize h))

unfoldable pub hex : Bytes → Bytes
unfolding hex_digit
hex [] = []
hex (v ∷ vs) = hex_digit (v / 16) ∷ hex_digit (v % 16) ∷ hex vs

unfoldable pub hex_digest : Sha256 → Bytes
unfolding digest hex
hex_digest h = hex (digest h)

unfoldable pub sha256 : Bytes → Result Error Bytes
unfolding update hex_digest
sha256 input = do hash ← update initial input; ok (hex_digest hash)
