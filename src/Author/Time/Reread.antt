-- ===== src/Author/Time/Reread.antt =====
-- `timestamp` of Native/src/Core/Authorship.cpp on a stamp that it has printed.
use ii_file_provider.Base.{
  ℕ, ◌≤◌, ◌≡◌, ◌⊎◌, inl, inr, refl, Bool, true, false, not, ◌&&◌, ◌||◌, ◌∷◌, ◌++◌, Bytes, ltb, leb,
  if◌then◌else◌, length, drop, ok, err, OnOk-ok, arith, Bool-cases, to_string,
}
use ii_file_provider.Author.Errors.{invalid_argument}
use ii_file_provider.Author.Calendar.{Instant}
use ii_file_provider.Author.Time.{
  prefix_shape, tail_shape, timestamp_shape, print_year, print, instant, timestamp,
}
use ii_file_provider.Author.Time.Canonical.{instant-print}
use ii_file_provider.Author.Time.Sound.{IsComputed, instant-IsInstant}

abbrev pub has_year : Instant → Bool
has_year t = leb 1 t.day.year && leb t.day.year 10000

-- A year that is printed with a sign or five digits.
prefix-wide :
    (y : ℕ) (rest : Bytes)
    → (y ≡ 0) ⊎ (y ≡ 10001)
    → prefix_shape 19 0 (print_year y ++ (b'-' ∷ rest)) ≡ false
unfolding prefix_shape print_year to_string
prefix-wide y rest (inl e) = rw e refl
prefix-wide y rest (inr e) = rw e refl

and_middle : (a b c : Bool) → b ≡ false → a && b && c ≡ false
and_middle a b c e = ground arith

shape-prefix : (raw : Bytes) → prefix_shape 19 0 raw ≡ false → timestamp_shape raw ≡ false
unfolding timestamp_shape
shape-prefix raw e =
    and_middle (not (ltb (length raw) 20 || ltb 29 (length raw))) (prefix_shape 19 0 raw)
      (tail_shape (drop 19 raw)) e

instant-refused : (raw : Bytes) → timestamp_shape raw ≡ false → instant raw ≡ err invalid_argument
unfolding instant
instant-refused raw e = rw e refl

instant-wide :
    (t : Instant)
    → (t.day.year ≡ 0) ⊎ (t.day.year ≡ 10001)
    → instant (print t) ≡ err invalid_argument
instant-wide t wide =
    instant-refused (print t)
      (shape-prefix (print t) (unfold print in prefix-wide t.day.year _ wide))

pub inside_years : (y : ℕ) → leb 1 y && leb y 10000 ≡ true → (1 ≤ y) × (y ≤ 10000)
inside_years y e = ground arith

outside_years : (y : ℕ) → y ≤ 10001 → leb 1 y && leb y 10000 ≡ false → (y ≡ 0) ⊎ (y ≡ 10001)
outside_years y h e = ground arith

-- A stamp that `timestamp` has printed is read as itself if its year is from 0 to 9999, and is
-- refused if the time zone has moved it to the year -1 or 10000.
pub timestamp-print :
    (raw : Bytes) (t : Instant)
    → instant raw ≡ ok t
    → timestamp (print t) ≡ (if has_year t then ok (print t) else err invalid_argument)
unfolding timestamp
timestamp-print raw t e =
    let v = OnOk-ok IsComputed (instant raw) t (instant-IsInstant raw) e in
    elim (Bool-cases (has_year t)) [
      | inl inside ↦ rw (inside, instant-print t v.0 (inside_years t.day.year inside)) refl
      | inr outside ↦ rw (outside, instant-wide t (outside_years t.day.year v.1 outside)) refl
    ]
