-- ===== src/Hash/Words.antt =====
-- The 32-bit words that both implementations compute with: `std::uint32_t` arithmetic, the round
-- constants, the eight chaining words and the hexadecimal digits.
use ii_file_provider.Base.{
  ℕ, ◌+◌, ◌-◌, ◌*◌, ◌/◌, ◌%◌, ◌^◌, ◌<◌, ◌≤◌, ◌⊎◌, List, [], ◌∷◌, ltb, if◌then◌else◌, All, arith,
}

abbrev pub u32_mod : ℕ
u32_mod = 2 ^ 32

-- `a + b` on `std::uint32_t`.
unfoldable pub add32 : ℕ → ℕ → ℕ
add32 a b = (a + b) % u32_mod

-- `std::rotr(x, k)` on `std::uint32_t`, for 0 < k < 32.
unfoldable pub rotr : ℕ → ℕ → ℕ
rotr x k = x / 2 ^ k + x % 2 ^ k * 2 ^ (32 - k)

-- `~x` on `std::uint32_t`.
unfoldable pub not32 : ℕ → ℕ
not32 x = u32_mod - 1 - x

abbrev pub constants : List ℕ
constants =
    0x428a2f98 ∷ 0x71374491 ∷ 0xb5c0fbcf ∷ 0xe9b5dba5 ∷ 0x3956c25b ∷ 0x59f111f1 ∷ 0x923f82a4
    ∷ 0xab1c5ed5 ∷ 0xd807aa98 ∷ 0x12835b01 ∷ 0x243185be ∷ 0x550c7dc3 ∷ 0x72be5d74 ∷ 0x80deb1fe
    ∷ 0x9bdc06a7 ∷ 0xc19bf174 ∷ 0xe49b69c1 ∷ 0xefbe4786 ∷ 0x0fc19dc6 ∷ 0x240ca1cc ∷ 0x2de92c6f
    ∷ 0x4a7484aa ∷ 0x5cb0a9dc ∷ 0x76f988da ∷ 0x983e5152 ∷ 0xa831c66d ∷ 0xb00327c8 ∷ 0xbf597fc7
    ∷ 0xc6e00bf3 ∷ 0xd5a79147 ∷ 0x06ca6351 ∷ 0x14292967 ∷ 0x27b70a85 ∷ 0x2e1b2138 ∷ 0x4d2c6dfc
    ∷ 0x53380d13 ∷ 0x650a7354 ∷ 0x766a0abb ∷ 0x81c2c92e ∷ 0x92722c85 ∷ 0xa2bfe8a1 ∷ 0xa81a664b
    ∷ 0xc24b8b70 ∷ 0xc76c51a3 ∷ 0xd192e819 ∷ 0xd6990624 ∷ 0xf40e3585 ∷ 0x106aa070 ∷ 0x19a4c116
    ∷ 0x1e376c08 ∷ 0x2748774c ∷ 0x34b0bcb5 ∷ 0x391c0cb3 ∷ 0x4ed8aa4a ∷ 0x5b9cca4f ∷ 0x682e6ff3
    ∷ 0x748f82ee ∷ 0x78a5636f ∷ 0x84c87814 ∷ 0x8cc70208 ∷ 0x90befffa ∷ 0xa4506ceb ∷ 0xbef9a3f7
    ∷ 0xc67178f2 ∷ []

-- `m_state` and `state`: an array of eight words.
pub record State : Type 0 where
  pub a : ℕ
  pub b : ℕ
  pub c : ℕ
  pub d : ℕ
  pub e : ℕ
  pub f : ℕ
  pub g : ℕ
  pub h : ℕ

abbrev pub words_of : State → List ℕ
words_of s = s.a ∷ s.b ∷ s.c ∷ s.d ∷ s.e ∷ s.f ∷ s.g ∷ s.h ∷ []

-- Every chaining word fits 32 bits.
abbrev pub IsWords : State → Type 0
IsWords s = All (λ w. w < u32_mod) (words_of s)

abbrev pub initial_state : State
initial_state = record {
  a = 0x6a09e667;
  b = 0xbb67ae85;
  c = 0x3c6ef372;
  d = 0xa54ff53a;
  e = 0x510e527f;
  f = 0x9b05688c;
  g = 0x1f83d9ab;
  h = 0x5be0cd19;
}

-- The digit of "0123456789abcdef" at an index below 16.
unfoldable pub hex_digit : ℕ → ℕ
hex_digit n = if ltb n 10 then b'0' + n else b'a' + (n - 10)

abbrev pub IsHexDigit : ℕ → Type 0
IsHexDigit c = (b'0' ≤ c) × (c ≤ b'f') × ((c ≤ b'9') ⊎ (b'a' ≤ c))

pub hex_digit-IsHexDigit : (n : ℕ) → n < 16 → IsHexDigit (hex_digit n)
unfolding hex_digit
hex_digit-IsHexDigit n h = ground arith
