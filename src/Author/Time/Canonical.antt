-- ===== src/Author/Time/Canonical.antt =====
-- The stamps that `timestamp` of Native/src/Core/Authorship.cpp prints, read again.
use ii_file_provider.Base.{
  ℕ, zero, suc, ◌+◌, ◌-◌, ◌*◌, ◌/◌, ◌%◌, ◌≤◌, ◌<◌, ◌≡◌, refl, ap, ◌∙◌, true, false, ◌&&◌, ◌||◌, [],
  ◌∷◌, ◌++◌, Bytes, ltb, ◌==◌, ok, arith,
}
use ii_file_provider.Author.Calendar.{Date, date, Instant, east, is_date, to_utc}
use ii_file_provider.Author.Time.{
  is_digit, digits, prefix_shape, timestamp_shape, fraction, zone, padded, print_year, print,
  instant,
}

is_digit-digit : (n : ℕ) → is_digit (b'0' + n % 10) ≡ true
is_digit-digit n = ground arith

digits-2 : (n : ℕ) → n < 100 → digits (padded 2 n) ≡ ok n
unfolding digits
digits-2 n h = ground arith

digits-3 : (n : ℕ) → n < 1000 → digits (padded 3 n) ≡ ok n
unfolding digits
digits-3 n h = ground arith

digits-4 : (n : ℕ) → n < 10000 → digits (padded 4 n) ≡ ok n
unfolding digits
digits-4 n h = ground arith

pub date_bounds : (y m d : ℕ) → is_date y m d ≡ true → (1 ≤ m) × (m ≤ 12) × (1 ≤ d) × (d ≤ 31)
unfolding is_date
date_bounds y m d e = ground arith

-- The text that `snprintf` makes for a year from 0 to 9999.
abbrev pub stamp : ℕ → ℕ → ℕ → ℕ → ℕ → ℕ → ℕ → Bytes
stamp y mo d h mi s ms =
    padded 4 y
    ++ (b'-' ∷ padded 2 mo
        ++ (b'-' ∷ padded 2 d
            ++ (b'T' ∷ padded 2 h
                ++ (b':' ∷ padded 2 mi
                    ++ (b':' ∷ padded 2 s ++ (b'.' ∷ padded 3 ms ++ b'Z' ∷ []))))))

shape-stamp : (y mo d h mi s ms : ℕ) → timestamp_shape (stamp y mo d h mi s ms) ≡ true
unfolding timestamp_shape prefix_shape
shape-stamp y mo d h mi s ms = simp is_digit-digit

no_mark :
    (n : ℕ) → (b'0' + n % 10 == b'Z' || b'0' + n % 10 == b'+' || b'0' + n % 10 == b'-') ≡ false
no_mark n = ground arith

fraction-padded :
    (ms : ℕ) → ms < 1000 → fraction (b'.' ∷ padded 3 ms ++ b'Z' ∷ []) ≡ ok (ms, b'Z' ∷ [])
unfolding fraction
fraction-padded ms h = simp (no_mark, digits-3 ms h)

to_utc-zero : (t : Date) (minute : ℕ) → to_utc t minute (east 0) ≡ (t, minute)
unfolding to_utc
to_utc-zero t minute = ground arith

instant-stamp :
    (y mo d h mi s ms : ℕ)
    → y < 10000
    → is_date y mo d ≡ true
    → h < 24
    → mi < 60
    → s < 60
    → ms < 1000
    → instant (stamp y mo d h mi s ms)
      ≡ ok (record { day = date (y + 1) mo d; minute = h * 60 + mi; second = s; millisecond = ms })
unfolding instant
instant-stamp y mo d h mi s ms hy hd hh hmi hs hms =
    let (_, m_le, _, d_le) = date_bounds y mo d hd in
    let fits : is_date y mo d && ltb h 24 && ltb mi 60 && ltb s 60 ≡ true = ground arith in
    rw
      (
        shape-stamp y mo d h mi s ms,
        digits-4 y hy,
        digits-2 mo (omega arith),
        digits-2 d (omega arith),
        digits-2 h (omega arith),
        digits-2 mi (omega arith),
        digits-2 s (omega arith),
        fits,
        fraction-padded ms hms,
      )
      (unfold zone in rw (to_utc-zero (date (y + 1) mo d) (h * 60 + mi)) refl)

-- A point in time that `timestamp` has computed.
pub record IsInstant (t : Instant) : Type 0 where
  pub dated : is_date (t.day.year - 1) t.day.month t.day.day ≡ true
  pub minute : t.minute < 1440
  pub second : t.second < 60
  pub millisecond : t.millisecond < 1000

-- The year is from 0 to 9999.
abbrev pub HasYear : Instant → Type 0
HasYear t = (1 ≤ t.day.year) × (t.day.year ≤ 10000)

print_year-padded : (n : ℕ) → 1 ≤ n → n ≤ 10000 → print_year n ≡ padded 4 (n - 1)
unfolding print_year
print_year-padded zero h h' = absurd (omega (arith, h))
print_year-padded (suc y) h h' =
    let below : ltb y 10000 ≡ true = ground arith in
    let same : suc y - 1 ≡ y = omega arith in rw (below, same) refl

print-stamp :
    (t : Instant)
    → HasYear t
    → print t
      ≡ stamp
          (t.day.year - 1)
          t.day.month
          t.day.day
          (t.minute / 60)
          (t.minute % 60)
          t.second
          t.millisecond
unfolding print
print-stamp t h = rw (print_year-padded t.day.year h.0 h.1) refl

pub instant-print : (t : Instant) → IsInstant t → HasYear t → instant (print t) ≡ ok t
instant-print t v h =
    let read =
      instant-stamp (t.day.year - 1) t.day.month t.day.day (t.minute / 60) (t.minute % 60) t.second
        t.millisecond (omega (arith, h)) v.dated (omega (arith, v.minute)) (omega arith) v.second
        v.millisecond in
    let year : t.day.year - 1 + 1 ≡ t.day.year = omega (arith, h) in
    let minute : t.minute / 60 * 60 + t.minute % 60 ≡ t.minute = omega arith in
    ap instant (print-stamp t h) ∙ read ∙ ap ok (cc (year, minute))
