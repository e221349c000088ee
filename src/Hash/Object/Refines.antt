-- ===== src/Hash/Object/Refines.antt =====
-- ObjectHash::update against the byte-by-byte stream.
use ii_file_provider.Base.{
  ℕ, zero, suc, ◌+◌, ◌-◌, ◌/◌, ◌%◌, ◌^◌, ◌≤◌, ◌<◌, min, ◌≡◌, refl, sym, ◌∙◌, [], ◌∷◌, false, inl,
  inr, Bytes, ◌==◌, leb, if◌then◌else◌, Bool-cases, tests, arith, length, take, drop, length-take,
  length-drop, Result, ok, err,
}
use ii_file_provider.Hash.Buffer.{copy_at, length-copy_at, absorb_some}
use ii_file_provider.Hash.Stream.{Absorbed, absorb}
use ii_file_provider.Hash.Words.{State}
use ii_file_provider.Hash.Object.{ObjectHash, Error, block, advance, feed, update}

-- As for `Sha256`: a full array is never left waiting, and the count of bytes fits 61 bits.
pub record IsValid (h : ObjectHash) : Type 0 where
  pub full : length h.pending ≡ 64
  pub room : h.used < 64
  pub counted : h.total ≤ (2 ^ 64 - 1) / 8
  pub aligned : h.total % 64 ≡ h.used

abbrev pub absorbed : ObjectHash → Absorbed State
absorbed h = record { state = h.state; tail = take h.used h.pending }

record Continues (h : ObjectHash) (input : Bytes) (p : ObjectHash) (left : Bytes) : Type 0 where
  same : absorb block (absorbed p) left ≡ absorb block (absorbed h) input
  full : length p.pending ≡ 64
  room : p.used < 64
  total : p.total ≡ h.total
  aligned : (p.used + length left) % 64 ≡ (h.used + length input) % 64

advance-Continues :
    (h : ObjectHash) (input : Bytes)
    → length h.pending ≡ 64
    → h.used < 64
    → Continues h input (advance h input).0 (advance h input).1
unfolding advance
advance-Continues h input full room = elim (Bool-cases (h.used + n == 64)) [
  | inl t ↦ rw t (record {
    same = sym (rw t at some);
    full = size;
    room = omega arith;
    total = refl;
    aligned = omega (tests, length-drop n input);
  })
  | inr t ↦ rw t (record {
    same = sym (rw t at some);
    full = size;
    room = omega tests;
    total = refl;
    aligned = omega (tests, length-drop n input);
  })
]
  where
    n : ℕ
    n = min (length input) (64 - h.used)

    some :
        absorb block (absorbed h) input
        ≡ absorb block
            (if h.used + n == 64
              then record {
                state = block h.state (copy_at h.pending h.used (take n input));
                tail = [];
              }
              else record {
                state = h.state;
                tail = take (h.used + n) (copy_at h.pending h.used (take n input));
              })
            (drop n input)
    some = absorb_some block h.state h.pending h.used input full room

    size : length (copy_at h.pending h.used (take n input)) ≡ 64
    size =
        length-copy_at h.pending h.used (take n input) (omega (arith, length-take n input)) ∙ full

-- Every round takes some of the input.
advance-shorter :
    (h : ObjectHash) (input : Bytes)
    → h.used < 64
    → 0 < length input
    → length (advance h input).1 < length input
unfolding advance
advance-shorter h input room some =
    omega (arith, length-drop (min (length input) (64 - h.used)) input)

feed-Continues :
    (fuel : ℕ) (h : ObjectHash) (input : Bytes)
    → length h.pending ≡ 64
    → h.used < 64
    → length input ≤ fuel
    → Continues h input (feed fuel h input) []
unfolding feed
feed-Continues zero h [] full room enough = record {
  same = refl;
  full = full;
  room = room;
  total = refl;
  aligned = refl;
}
feed-Continues zero h (c ∷ cs) full room enough = absurd (omega arith)
feed-Continues (suc fuel) h [] full room enough = record {
  same = refl;
  full = full;
  room = room;
  total = refl;
  aligned = refl;
}
feed-Continues (suc fuel) h (c ∷ cs) full room enough =
    let input = c ∷ cs in
    let nonempty : length input == 0 ≡ false = ground arith in
    let once = advance-Continues h input full room in
    let p = advance h input in
    let ih =
      feed-Continues fuel p.0 p.1 once.full once.room
        (omega (arith, advance-shorter h input room (omega arith))) in
    rw nonempty (record {
      same = ih.same ∙ once.same;
      full = ih.full;
      room = ih.room;
      total = ih.total ∙ once.total;
      aligned = ih.aligned ∙ once.aligned;
    })

-- What a call of `update` may return.
abbrev pub Absorbs : ObjectHash → Bytes → Result Error ObjectHash → Type 0
Absorbs h input (ok h') =
    (h.total + length input ≤ (2 ^ 64 - 1) / 8)
    × IsValid h'
    × (absorbed h' ≡ absorb block (absorbed h) input)
    × (h'.total ≡ h.total + length input)
Absorbs h input (err e) = (2 ^ 64 - 1) / 8 < h.total + length input

-- From a state that satisfies `IsValid`, `ObjectHash::update` throws exactly when the bytes would
-- pass 2^61 - 1 in all; otherwise the new state satisfies `IsValid`, has counted the input's bytes,
-- and has absorbed them as the stream that compresses every 64 bytes as they come.
pub object_update-Absorbs :
    (h : ObjectHash) (input : Bytes) → IsValid h → Absorbs h input (update h input)
unfolding update absorb
object_update-Absorbs h input v =
    elim (Bool-cases (leb (length input) (((2 ^ 64 - 1) / 8 + 2 ^ 64 - h.total) % 2 ^ 64))) [
      | inl fits ↦
          let start = record h { total = h.total + length input } in
          let fed = feed-Continues (length input) start input v.full v.room (omega arith) in
          let small : h.total + length input ≤ (2 ^ 64 - 1) / 8 = omega (tests, v.counted) in
          rw fits (
            small,
            record {
              full = fed.full;
              room = fed.room;
              counted = omega (arith, fed.total);
              aligned = omega (arith, fed.total, fed.aligned, fed.room, v.aligned);
            },
            fed.same,
            fed.total,
          )
      | inr over ↦ rw over (omega (tests, v.counted))
    ]
