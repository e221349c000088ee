-- ===== src/Author/Time/Sound.antt =====
-- The points in time that `timestamp` of Native/src/Core/Authorship.cpp computes.
use ii_file_provider.Base.{
  ℕ, zero, suc, ◌+◌, ◌-◌, ◌*◌, ◌≤◌, ◌<◌, ◌≡◌, refl, Bool, true, not, ◌&&◌, ◌||◌, [], ◌∷◌, Bytes,
  ltb, leb, ◌==◌, length, get_or, take, drop, digits_value, OnOk, OnOk-after, OnOk-bind, OnOk-guard,
  Bool-cases, inl, inr, arith,
}
use ii_file_provider.Author.Errors.{invalid_argument}
use ii_file_provider.Author.Calendar.{
  Date, date, Instant, Zone, east, west, is_date, is_leap, days_in_month, next_day, previous_day,
  to_utc,
}
use ii_file_provider.Author.Time.{
  tail_shape, zone_shape, digit_run, zone_start, all_digits, digits, prefix_shape, timestamp_shape,
  fraction, zone, instant,
}
use ii_file_provider.Author.Time.Canonical.{IsInstant}

abbrev IsOffset : Zone → Type 0
IsOffset (east offset) = offset < 1440
IsOffset (west offset) = offset < 1440

record IsMoved (p : Date × ℕ) : Type 0 where
  dated : is_date (p.0.year - 1) p.0.month p.0.day ≡ true
  minute : p.1 < 1440
  year : p.0.year ≤ 10001

-- A time zone moves a time by less than a day, to a day that the calendar has.
to_utc-dated :
    (y mo d minute : ℕ) (offset : Zone)
    → y < 10000
    → is_date y mo d ≡ true
    → minute < 1440
    → IsOffset offset
    → IsMoved (to_utc (date (y + 1) mo d) minute offset)
unfolding to_utc next_day previous_day is_date days_in_month is_leap
to_utc-dated y mo d minute (east offset) hy e h ho = ground arith
to_utc-dated y mo d minute (west offset) hy e h ho = ground arith

zone_start-run :
    (cs : Bytes) → zone_shape (drop (digit_run cs) cs) ≡ true → zone_start cs ≡ digit_run cs
zone_start-run [] e = refl
zone_start-run (c ∷ cs) e = ground (arith, zone_start-run cs)

abbrev IsSmall : ℕ → ℕ → Type 0
IsSmall n v = (v < 1000) × ((n ≡ 1) → v < 10) × ((n ≡ 2) → v < 100)

digits-OnOk :
    (P : ℕ → Type 0) (cs : Bytes)
    → (all_digits cs ≡ true → P (digits_value 0 cs))
    → OnOk P (digits cs)
unfolding digits
digits-OnOk P [] h = tt
digits-OnOk P (c ∷ cs) h =
    OnOk-guard P (all_digits (c ∷ cs) && ltb (digits_value 0 (c ∷ cs)) 2147483648) invalid_argument
      _ λ e. h (ground arith)

digits-IsSmall : (n : ℕ) (cs : Bytes) → 1 ≤ n → n ≤ 3 → OnOk (IsSmall n) (digits (take n cs))
digits-IsSmall zero cs h h' = absurd (omega (arith, h))
digits-IsSmall (suc zero) [] h h' = unfold digits in tt
digits-IsSmall (suc zero) (a ∷ cs) h h' = digits-OnOk (IsSmall 1) (a ∷ []) λ e. ground arith
digits-IsSmall (suc (suc n)) [] h h' = unfold digits in tt
digits-IsSmall (suc (suc n)) (a ∷ []) h h' =
    digits-OnOk (IsSmall (suc (suc n))) (a ∷ []) λ e. ground arith
digits-IsSmall (suc (suc zero)) (a ∷ b ∷ cs) h h' =
    digits-OnOk (IsSmall 2) (a ∷ b ∷ []) λ e. ground arith
digits-IsSmall (suc (suc (suc n))) (a ∷ b ∷ []) h h' =
    digits-OnOk (IsSmall (suc (suc (suc n)))) (a ∷ b ∷ []) λ e. ground arith
digits-IsSmall (suc (suc (suc zero))) (a ∷ b ∷ c ∷ cs) h h' =
    digits-OnOk (IsSmall 3) (a ∷ b ∷ c ∷ []) λ e. ground arith
digits-IsSmall (suc (suc (suc (suc n)))) (a ∷ b ∷ c ∷ cs) h h' = absurd (omega (arith, h'))

-- A fraction that the shape allows has less than a second's milliseconds.
abbrev IsFraction : ℕ × Bytes → Type 0
IsFraction p = p.0 < 1000

fraction-IsFraction : (rest : Bytes) → tail_shape rest ≡ true → OnOk IsFraction (fraction rest)
unfolding fraction
fraction-IsFraction [] e = cc
fraction-IsFraction (c ∷ cs) e = elim (Bool-cases (c == b'.')) [
  | inr plain ↦ rw plain (omega arith)
  | inl point ↦
      let short : (1 ≤ digit_run cs) × (digit_run cs ≤ 3) = ground arith in
      let count = zone_start-run cs (ground arith) in
      rw (point, count)
        (OnOk-bind IsFraction (IsSmall (digit_run cs)) (digits (take (digit_run cs) cs)) _
          (digits-IsSmall (digit_run cs) cs short.0 short.1) λ ms x. ground arith)
]

zone-IsOffset : (rest : Bytes) → OnOk IsOffset (zone rest)
unfolding zone
zone-IsOffset rest = elim (Bool-cases (get_or rest 0 0 == b'Z')) [
  | inl utc ↦ rw utc (omega arith)
  | inr other ↦ rw other (
      OnOk-after IsOffset (digits (take 2 (drop 1 rest))) _ λ hours _.
        OnOk-after IsOffset (digits (take 2 (drop 4 rest))) _ λ minutes _.
          OnOk-guard IsOffset (leb hours 23 && ltb minutes 60) invalid_argument _ λ e. ground arith)
]

digits-year : (raw : Bytes) → OnOk (λ y. y < 10000) (digits (take 4 raw))
digits-year [] = unfold digits in tt
digits-year (a ∷ []) = digits-OnOk (λ y. y < 10000) (a ∷ []) λ e. ground arith
digits-year (a ∷ b ∷ []) = digits-OnOk (λ y. y < 10000) (a ∷ b ∷ []) λ e. ground arith
digits-year (a ∷ b ∷ c ∷ []) = digits-OnOk (λ y. y < 10000) (a ∷ b ∷ c ∷ []) λ e. ground arith
digits-year (a ∷ b ∷ c ∷ d ∷ cs) =
    digits-OnOk (λ y. y < 10000) (a ∷ b ∷ c ∷ d ∷ []) λ e. ground arith

and_last : (a b c : Bool) → a && b && c ≡ true → c ≡ true
and_last a b c e = ground arith

shape-tail : (raw : Bytes) → timestamp_shape raw ≡ true → tail_shape (drop 19 raw) ≡ true
unfolding timestamp_shape
shape-tail raw e =
    and_last (not (ltb (length raw) 20 || ltb 29 (length raw))) (prefix_shape 19 0 raw)
      (tail_shape (drop 19 raw)) e

abbrev pub IsComputed : Instant → Type 0
IsComputed t = IsInstant t × (t.day.year ≤ 10001)

pub instant-IsInstant : (raw : Bytes) → OnOk IsComputed (instant raw)
unfolding instant
instant-IsInstant raw = OnOk-guard IsComputed (timestamp_shape raw) invalid_argument _ λ shaped.
    OnOk-bind IsComputed (λ y. y < 10000) (digits (take 4 raw)) _ (digits-year raw)
      λ y hy. OnOk-after IsComputed (digits (take 2 (drop 5 raw))) _ λ mo _.
        OnOk-after IsComputed (digits (take 2 (drop 8 raw))) _ λ d _.
          OnOk-after IsComputed (digits (take 2 (drop 11 raw))) _ λ h _.
            OnOk-after IsComputed (digits (take 2 (drop 14 raw))) _ λ mi _.
              OnOk-after IsComputed (digits (take 2 (drop 17 raw))) _ λ s _.
                OnOk-guard IsComputed (is_date y mo d && ltb h 24 && ltb mi 60 && ltb s 60)
                  invalid_argument _
                  λ fits.
                    OnOk-bind IsComputed IsFraction (fraction (drop 19 raw)) _
                      (fraction-IsFraction (drop 19 raw) (shape-tail raw shaped))
                      λ p ms.
                        OnOk-bind IsComputed IsOffset (zone p.1) _ (zone-IsOffset p.1)
                          λ offset ho. computed y mo d h mi s p.0 offset hy ms fits ho
  where
    computed :
        (y mo d h mi s ms : ℕ) (offset : Zone)
        → y < 10000
        → ms < 1000
        → is_date y mo d && ltb h 24 && ltb mi 60 && ltb s 60 ≡ true
        → IsOffset offset
        → IsComputed (record {
          day = (to_utc (date (y + 1) mo d) (h * 60 + mi) offset).0;
          minute = (to_utc (date (y + 1) mo d) (h * 60 + mi) offset).1;
          second = s;
          millisecond = ms;
        })
    computed y mo d h mi s ms offset hy hms fits ho =
        let moved = to_utc-dated y mo d (h * 60 + mi) offset hy (ground arith) (ground arith) ho in
        (
          record {
            dated = moved.dated;
            minute = moved.minute;
            second = ground arith;
            millisecond = hms;
          },
          moved.year,
        )
