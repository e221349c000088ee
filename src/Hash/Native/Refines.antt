-- ===== src/Hash/Native/Refines.antt =====
-- Sha256::update and Sha256::digest against the byte-by-byte stream.
use ii_file_provider.Base.{
  ℕ, zero, suc, ◌+◌, ◌-◌, ◌%◌, ◌^◌, ◌≤◌, ◌<◌, min, ◌≡◌, refl, sym, ap, ◌∙◌, [], ◌∷◌, ◌⊎◌, inl, inr,
  Bytes, ◌==◌, leb, if◌then◌else◌, Bool-cases, tests, arith, length, take, drop, length-take,
  length-drop, take-append-drop, Result, ok, err,
}
use ii_file_provider.Hash.Buffer.{copy_at, take-copy_at, length-copy_at, absorb_some}
use ii_file_provider.Hash.Stream.{Absorbed, absorb, absorb-append, absorb_short, absorb_full}
use ii_file_provider.Hash.Words.{State}
use ii_file_provider.Hash.Native.{
  Sha256, Error, maximum_bytes, transform, fill_pending, whole_blocks, keep_tail, take_in, update,
}

-- The array is whole, a full one is never left waiting, and the count of bytes fits 61 bits.
pub record IsValid (h : Sha256) : Type 0 where
  pub full : length h.pending ≡ 64
  pub room : h.pending_size < 64
  pub counted : h.bytes ≤ maximum_bytes
  pub aligned : h.bytes % 64 ≡ h.pending_size

abbrev pub absorbed : Sha256 → Absorbed State
absorbed h = record { state = h.state; tail = take h.pending_size h.pending }

-- `p` is an intermediate state of `update`, and the input that it has still to take.
record Continues (h : Sha256) (input : Bytes) (p : Sha256 × Bytes) : Type 0 where
  same : absorb transform (absorbed p.0) p.1 ≡ absorb transform (absorbed h) input
  full : length p.0.pending ≡ 64
  room : p.0.pending_size < 64
  bytes : p.0.bytes ≡ h.bytes
  aligned : (p.0.pending_size + length p.1) % 64 ≡ (h.pending_size + length input) % 64

fill_pending-Continues :
    (h : Sha256) (input : Bytes)
    → length h.pending ≡ 64
    → h.pending_size < 64
    → Continues h input (fill_pending h input)
unfolding fill_pending
fill_pending-Continues h input full room = elim (Bool-cases (h.pending_size == 0)) [
  | inl z ↦ rw z (record { same = refl; full = full; room = room; bytes = refl; aligned = refl })
  | inr nz ↦ rw nz (elim (Bool-cases (h.pending_size + taken == 64)) [
    | inl t ↦ rw t (record {
      same = sym (rw t at some);
      full = size;
      room = omega arith;
      bytes = refl;
      aligned = omega (tests, length-drop taken input);
    })
    | inr t ↦ rw t (record {
      same = sym (rw t at some);
      full = size;
      room = omega tests;
      bytes = refl;
      aligned = omega (tests, length-drop taken input);
    })
  ])
]
  where
    taken : ℕ
    taken = min (length input) (64 - h.pending_size)

    some :
        absorb transform (absorbed h) input
        ≡ absorb transform
            (if h.pending_size + taken == 64
              then record {
                state = transform h.state (copy_at h.pending h.pending_size (take taken input));
                tail = [];
              }
              else record {
                state = h.state;
                tail =
                    take
                      (h.pending_size + taken)
                      (copy_at h.pending h.pending_size (take taken input));
              })
            (drop taken input)
    some = absorb_some transform h.state h.pending h.pending_size input full room

    size : length (copy_at h.pending h.pending_size (take taken input)) ≡ 64
    size =
        length-copy_at h.pending h.pending_size (take taken input)
          (omega (arith, length-take taken input))
        ∙ full

-- After it, only an empty array has input left to take.
fill_pending_exhausts :
    (h : Sha256) (input : Bytes)
    → h.pending_size < 64
    → ((fill_pending h input).0.pending_size ≡ 0) ⊎ (length (fill_pending h input).1 ≡ 0)
unfolding fill_pending
fill_pending_exhausts h input room =
    ground (arith, length-drop (min (length input) (64 - h.pending_size)) input)

-- One whole block, with nothing waiting.
absorb_block :
    (st : State) (pending : Bytes) (n : ℕ) (input : Bytes)
    → n ≡ 0
    → 64 ≤ length input
    → absorb transform
        (record { state = transform st (take 64 input); tail = take n pending })
        (drop 64 input)
      ≡ absorb transform (record { state = st; tail = take n pending }) input
absorb_block st pending n input z more = rw z (
    ap (λ s. absorb transform s (drop 64 input))
      (sym (
        absorb_full transform st [] (take 64 input) (omega (arith, length-take 64 input))
          (omega (arith, length-take 64 input))))
    ∙ sym (absorb-append transform _ (take 64 input) (drop 64 input))
    ∙ ap (absorb transform _) (take-append-drop 64 input))

whole_blocks-Continues :
    (fuel : ℕ) (h : Sha256) (input : Bytes)
    → length h.pending ≡ 64
    → h.pending_size < 64
    → (h.pending_size ≡ 0) ⊎ (length input ≡ 0)
    → Continues h input (whole_blocks fuel h input)
unfolding whole_blocks
whole_blocks-Continues zero h input full room z = record {
  same = refl;
  full = full;
  room = room;
  bytes = refl;
  aligned = refl;
}
whole_blocks-Continues (suc fuel) h input full room z = elim (Bool-cases (leb 64 (length input))) [
  | inr small ↦
      rw small (record { same = refl; full = full; room = room; bytes = refl; aligned = refl })
  | inl more ↦
      let next = record h { state = transform h.state (take 64 input) } in
      let ih =
        whole_blocks-Continues fuel next (drop 64 input) full room
          (omega (tests, length-drop 64 input)) in
      rw more (record {
        same =
            ih.same
            ∙ absorb_block h.state h.pending h.pending_size input (omega tests) (omega tests);
        full = ih.full;
        room = ih.room;
        bytes = ih.bytes;
        aligned = omega (tests, ih.aligned, length-drop 64 input);
      })
]

-- The loop leaves less than a block.
whole_blocks_rest :
    (fuel : ℕ) (h : Sha256) (input : Bytes)
    → length input ≤ fuel
    → (length (whole_blocks fuel h input).1 < 64)
      × ((whole_blocks fuel h input).0.pending_size ≡ h.pending_size)
      × (length input ≡ 0 → length (whole_blocks fuel h input).1 ≡ 0)
unfolding whole_blocks
whole_blocks_rest zero h input enough = omega arith
whole_blocks_rest (suc fuel) h input enough = elim (Bool-cases (leb 64 (length input))) [
  | inr small ↦ rw small (omega tests, refl, λ e. e)
  | inl more ↦
      let next = record h { state = transform h.state (take 64 input) } in
      let ih = whole_blocks_rest fuel next (drop 64 input) (omega (tests, length-drop 64 input)) in
      rw more (ih.0, ih.1, λ e. ih.2 (omega (arith, length-drop 64 input)))
]

keep_tail-cons :
    (h : Sha256) (c : ℕ) (cs : Bytes)
    → keep_tail h (c ∷ cs)
      ≡ record h { pending = copy_at h.pending 0 (c ∷ cs); pending_size = suc (length cs) }
unfolding keep_tail
keep_tail-cons h c cs = ground arith

keep_tail_lem :
    (h : Sha256) (input : Bytes)
    → length h.pending ≡ 64
    → h.pending_size < 64
    → (h.pending_size ≡ 0) ⊎ (length input ≡ 0)
    → length input < 64
    → (absorbed (keep_tail h input) ≡ absorb transform (absorbed h) input)
      × (length (keep_tail h input).pending ≡ 64)
      × ((keep_tail h input).pending_size ≡ h.pending_size + length input)
      × ((keep_tail h input).bytes ≡ h.bytes)
unfolding keep_tail
keep_tail_lem h [] full room z short = (unfold absorb in refl, full, omega arith, refl)
keep_tail_lem h (c ∷ cs) full room z short =
    let empty : h.pending_size ≡ 0 = omega (arith, z) in
    let fits : suc (length cs) ≤ length h.pending = omega arith in
    rw keep_tail-cons (
      rw (take-copy_at h.pending 0 (c ∷ cs) (suc (length cs)) (omega arith) fits, empty)
          (sym (absorb_short transform h.state [] (c ∷ cs) (omega arith))),
      length-copy_at h.pending 0 (c ∷ cs) (omega arith) ∙ full,
      omega arith,
      refl,
    )

-- The input is absorbed, and the invariant is kept.
take_in_lem :
    (h : Sha256) (input : Bytes)
    → IsValid h
    → h.bytes + length input ≤ maximum_bytes
    → IsValid (take_in h input)
      × (absorbed (take_in h input) ≡ absorb transform (absorbed h) input)
      × ((take_in h input).bytes ≡ h.bytes + length input)
unfolding take_in
take_in_lem h input v fits = (
  record {
    full = kept.1;
    room = room;
    counted = omega (arith, kept.3, whole.bytes, filled.bytes);
    aligned = omega (
      arith, kept.2, kept.3, whole.bytes, filled.bytes, whole.aligned, filled.aligned, v.aligned,
      room,
    );
  },
  kept.0 ∙ whole.same ∙ filled.same,
  kept.3 ∙ whole.bytes ∙ filled.bytes,
)
  where
    start : Sha256
    start = record h { bytes = h.bytes + length input }

    filled : Continues start input (fill_pending start input)
    filled = fill_pending-Continues start input v.full v.room

    mid : Sha256 × Bytes
    mid = fill_pending start input

    exhausts : (mid.0.pending_size ≡ 0) ⊎ (length mid.1 ≡ 0)
    exhausts = fill_pending_exhausts start input v.room

    whole : Continues mid.0 mid.1 (whole_blocks (length mid.1) mid.0 mid.1)
    whole = whole_blocks-Continues (length mid.1) mid.0 mid.1 filled.full filled.room exhausts

    last : Sha256 × Bytes
    last = whole_blocks (length mid.1) mid.0 mid.1

    rest :
        (length last.1 < 64)
        × (last.0.pending_size ≡ mid.0.pending_size)
        × (length mid.1 ≡ 0 → length last.1 ≡ 0)
    rest = whole_blocks_rest (length mid.1) mid.0 mid.1 (omega arith)

    left : (last.0.pending_size ≡ 0) ⊎ (length last.1 ≡ 0)
    left = omega (arith, exhausts, rest.1, rest.2)

    kept :
        (absorbed (keep_tail last.0 last.1) ≡ absorb transform (absorbed last.0) last.1)
        × (length (keep_tail last.0 last.1).pending ≡ 64)
        × ((keep_tail last.0 last.1).pending_size ≡ last.0.pending_size + length last.1)
        × ((keep_tail last.0 last.1).bytes ≡ last.0.bytes)
    kept = keep_tail_lem last.0 last.1 whole.full whole.room left rest.0

    room : (keep_tail last.0 last.1).pending_size < 64
    room = omega (arith, kept.2, rest.0, left, whole.room)

-- What a call of `update` may return.
abbrev pub Absorbs : Sha256 → Bytes → Result Error Sha256 → Type 0
Absorbs h input (ok h') =
    (h.bytes + length input ≤ maximum_bytes)
    × IsValid h'
    × (absorbed h' ≡ absorb transform (absorbed h) input)
    × (h'.bytes ≡ h.bytes + length input)
Absorbs h input (err e) = maximum_bytes < h.bytes + length input

-- From a state that satisfies `IsValid`, `update` throws exactly when the bytes would pass 2^61 - 1
-- in all; otherwise the new state satisfies `IsValid`, has counted the input's bytes, and has
-- absorbed them as the stream that compresses every 64 bytes as they come.
pub update-Absorbs : (h : Sha256) (input : Bytes) → IsValid h → Absorbs h input (update h input)
unfolding update
update-Absorbs h input v =
    elim (Bool-cases (leb (length input) ((maximum_bytes + 2 ^ 64 - h.bytes) % 2 ^ 64))) [
      | inl fits ↦
          let r = take_in_lem h input v (omega (tests, v.counted)) in
          rw fits (omega (tests, v.counted), r.0, r.1, r.2)
      | inr over ↦ rw over (omega (tests, v.counted))
    ]
