-- ===== src/Hash/Buffer.antt =====
-- The 64-byte pending array of both implementations: bytes are copied in at an offset, and what
-- stood behind them stays in the array.
use ii_file_provider.Base.{
  ℕ, ◌+◌, ◌-◌, ◌≤◌, ◌<◌, min, ◌≡◌, refl, sym, ap, ◌∙◌, [], ◌∷◌, ◌++◌, append-nil, append_assoc,
  Bytes, ◌==◌, if◌then◌else◌, arith, length, length-append, take, drop, length-take, length-drop,
  take-all, drop-all, take-append_left, take-append-drop, min, ◌-◌, Bool-cases, inl, inr, replicate,
  tests, true, false, length-replicate, replicate-add, ltb, ◌%◌,
}
use ii_file_provider.Hash.Stream.{Absorbed, absorb, absorb-append, absorb_short, absorb_full}

-- `std::copy_n(source.begin(), source.size(), buffer.begin() + offset)`.
unfoldable pub copy_at : Bytes → ℕ → Bytes → Bytes
copy_at buffer offset source =
    take offset buffer ++ (source ++ drop (offset + length source) buffer)

module _ (buffer : Bytes) (offset : ℕ) (source : Bytes) where
  pub length-copy_at :
      offset + length source ≤ length buffer → length (copy_at buffer offset source) ≡ length buffer
  unfolding copy_at
  length-copy_at h = omega (
    arith,
    length-append (take offset buffer) (source ++ drop (offset + length source) buffer),
    length-append source (drop (offset + length source) buffer),
    length-take offset buffer,
    length-drop (offset + length source) buffer,
  )

  pub take-copy_at :
      (end : ℕ)
      → end ≡ offset + length source
      → end ≤ length buffer
      → take end (copy_at buffer offset source) ≡ take offset buffer ++ source
  unfolding copy_at
  take-copy_at end e h =
      ap (take end) (sym (append_assoc (take offset buffer) source _))
      ∙ take-append_left end (take offset buffer ++ source) _
          (omega (arith, length-append (take offset buffer) source, length-take offset buffer))

  pub copy_at_full :
      offset + length source ≡ length buffer
      → copy_at buffer offset source ≡ take offset buffer ++ source
  unfolding copy_at
  copy_at_full h = rw (drop-all (offset + length source) buffer (omega arith), append-nil)

-- What an array stands for: the bytes before its fill mark.
abbrev pub view : {S : Type 0} → S → Bytes → ℕ → Absorbed S
view st pending used = record { state = st; tail = take used pending }

module _ {S : Type 0} (compress : S → Bytes → S) where
  -- Copying a piece in, and compressing when that fills the array, absorbs the piece.
  pub absorb_piece :
      (st : S) (pending : Bytes) (used : ℕ) (piece : Bytes)
      → length pending ≡ 64
      → used + length piece ≤ 64
      → used < 64
      → let pending' = copy_at pending used piece in
        absorb compress (record { state = st; tail = take used pending }) piece ≡ (
          if used + length piece == 64
          then record { state = compress st pending'; tail = [] }
          else record { state = st; tail = take (used + length piece) pending' })
  absorb_piece st pending used piece full fits room =
      let waiting = length-take used pending in
      elim (Bool-cases (used + length piece == 64)) [
        | inl e ↦ rw e (
            absorb_full compress st (take used pending) piece (omega tests) (omega (tests, waiting))
            ∙ ap (λ block. record { state = compress st block; tail = [] })
                (sym (copy_at_full pending used piece (omega tests))))
        | inr e ↦ rw e (
            absorb_short compress st (take used pending) piece (omega (tests, waiting))
            ∙ ap (λ t. record { state = st; tail = t })
                (sym (take-copy_at pending used piece _ refl (omega tests))))
      ]

  -- As much as fits is copied in first, the rest is absorbed after it.
  pub absorb_some :
      (st : S) (pending : Bytes) (used : ℕ) (input : Bytes)
      → length pending ≡ 64
      → used < 64
      → let n = min (length input) (64 - used) in
        let pending' = copy_at pending used (take n input) in
        absorb compress (record { state = st; tail = take used pending }) input
        ≡ absorb compress
            (if used + n == 64
              then record { state = compress st pending'; tail = [] }
              else record { state = st; tail = take (used + n) pending' })
            (drop n input)
  absorb_some st pending used input full room =
      let n = min (length input) (64 - used) in
      let size : length (take n input) ≡ n = omega (arith, length-take n input) in
      ap (absorb compress _) (sym (take-append-drop n input))
      ∙ absorb-append compress _ (take n input) (drop n input)
      ∙ ap (λ s. absorb compress s (drop n input))
          (rw size at (absorb_piece st pending used (take n input) full (omega (arith, size)) room))

  abbrev pub closed : S → Bytes → ℕ → Bytes → S
  closed st pending n bits =
      let marked = copy_at pending n (0x80 ∷ []) in
      let used = n + 1 in
      let spilled = copy_at marked used (replicate (64 - used) 0) in
      let spill = ltb 56 used in
      let state = if spill then compress st spilled else st in
      let block = if spill then spilled else marked in
      let start = if spill then 0 else used in
      let zeros = copy_at block start (replicate (56 - start) 0) in
      compress state (copy_at zeros 56 bits)

  module _ (st : S) (pending : Bytes) (n : ℕ) (bits : Bytes) (full : length pending ≡ 64)
      (h : n < 64) (eight : length bits ≡ 8) where
    marked : Bytes
    marked = copy_at pending n (0x80 ∷ [])

    length-marked : length marked ≡ 64
    unfolding marked
    length-marked = length-copy_at pending n (0x80 ∷ []) (omega arith) ∙ full

    -- The mark, and zeros behind it.
    closed_block :
        (k end : ℕ)
        → end ≡ n + 1 + k
        → end ≤ 64
        → take end (copy_at marked (n + 1) (replicate k 0))
          ≡ take n pending ++ (0x80 ∷ replicate k 0)
    unfolding marked
    closed_block k end e fits =
        take-copy_at marked (n + 1) (replicate k 0) end
          (omega (arith, length-replicate {A = ℕ} k 0)) (omega (arith, length-marked))
        ∙ ap (λ t. t ++ replicate k 0)
            (take-copy_at pending n (0x80 ∷ []) (n + 1) refl (omega arith))
        ∙ append_assoc (take n pending) (0x80 ∷ []) (replicate k 0)

    length-zeros :
        (block : Bytes) (start : ℕ)
        → length block ≡ 64
        → start ≤ 56
        → length (copy_at block start (replicate (56 - start) 0)) ≡ 64
    length-zeros block start e b =
        length-copy_at block start (replicate (56 - start) 0)
          (omega (arith, length-replicate {A = ℕ} (56 - start) 0))
        ∙ e

    -- The length fills the last block.
    last_block :
        (st' : S) (zeros t pad : Bytes)
        → length zeros ≡ 64
        → take 56 zeros ≡ t ++ pad
        → absorb compress (record { state = st'; tail = t }) (pad ++ bits)
          ≡ record { state = compress st' (copy_at zeros 56 bits); tail = [] }
    last_block st' zeros t pad z e =
        absorb_full compress st' t (pad ++ bits) (omega (arith, length-append pad bits)) (
          omega
            (arith, ap length e, length-take 56 zeros, length-append t pad, length-append pad bits))
        ∙ ap (λ block. record { state = compress st' block; tail = [] })
            (sym (
              copy_at_full zeros 56 bits (omega arith)
              ∙ ap (λ s. s ++ bits) e
              ∙ append_assoc t pad bits))

    absorb-closed_spill :
        ltb 56 (n + 1) ≡ true
        → absorb compress
            (record { state = st; tail = take n pending })
            (0x80 ∷ (replicate ((119 - n) % 64) 0 ++ bits))
          ≡ record { state = closed st pending n bits; tail = [] }
    unfolding marked
    absorb-closed_spill e =
        let k = 64 - (n + 1) in
        let m : (119 - n) % 64 ≡ k + 56 = omega tests in
        let spilled = copy_at marked (n + 1) (replicate k 0) in
        let size : length spilled ≡ 64 =
          length-copy_at marked (n + 1) (replicate k 0)
            (omega (tests, length-replicate {A = ℕ} k 0, length-marked))
          ∙ length-marked in
        let block : take n pending ++ (0x80 ∷ replicate k 0) ≡ spilled =
          sym (closed_block k 64 (omega tests) (omega arith))
          ∙ take-all 64 spilled (omega (arith, size)) in
        rw (e, m, replicate-add {A = ℕ} k 56 0)
          (ap (λ z. absorb compress (record { state = st; tail = take n pending }) (0x80 ∷ z))
              (append_assoc (replicate k 0) (replicate 56 0) bits)
            ∙ absorb-append compress _ (0x80 ∷ replicate k 0) (replicate 56 0 ++ bits)
            ∙ ap (λ s. absorb compress s (replicate 56 0 ++ bits))
                (absorb_full compress st (take n pending) (0x80 ∷ replicate k 0) (omega arith)
                    (omega (tests, length-replicate {A = ℕ} k 0, length-take n pending))
                  ∙ ap (λ b. record { state = compress st b; tail = [] }) block)
            ∙ last_block (compress st spilled) (copy_at spilled 0 (replicate 56 0)) []
                (replicate 56 0) (length-zeros spilled 0 size (omega arith))
                (take-copy_at spilled 0 (replicate 56 0) 56 refl (omega (arith, size))))

    absorb-closed_fit :
        ltb 56 (n + 1) ≡ false
        → absorb compress
            (record { state = st; tail = take n pending })
            (0x80 ∷ (replicate ((119 - n) % 64) 0 ++ bits))
          ≡ record { state = closed st pending n bits; tail = [] }
    unfolding marked
    absorb-closed_fit e =
        let k = 56 - (n + 1) in
        let m : (119 - n) % 64 ≡ k = omega tests in
        rw (e, m)
          (last_block st (copy_at marked (n + 1) (replicate k 0)) (take n pending)
            (0x80 ∷ replicate k 0) (length-zeros marked (n + 1) length-marked (omega tests))
            (closed_block k 56 (omega tests) (omega arith)))

    -- Padding in place absorbs the padding.
    pub absorb-closed :
        absorb compress
          (record { state = st; tail = take n pending })
          (0x80 ∷ (replicate ((119 - n) % 64) 0 ++ bits))
        ≡ record { state = closed st pending n bits; tail = [] }
    absorb-closed = elim (Bool-cases (ltb 56 (n + 1))) [
      | inl e ↦ absorb-closed_spill e
      | inr e ↦ absorb-closed_fit e
    ]
