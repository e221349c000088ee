-- ===== src/Author/Time.antt =====
-- digits, timestampShape and timestamp of Native/src/Core/Authorship.cpp.
pub mod Canonical
pub mod Sound
pub mod Reread
pub mod Order
use ii_file_provider.Base.{
  ℕ, zero, suc, ◌+◌, ◌-◌, ◌*◌, ◌/◌, ◌%◌, Bool, true, false, not, ◌&&◌, ◌||◌, List, [], ◌∷◌, ◌++◌,
  Bytes, ltb, leb, ◌==◌, if◌then◌else◌, length, get_or, take, drop, Result, ok, err, ◌>>=◌, ◌>>◌,
  guard, to_string, digits_value,
}
use ii_file_provider.Author.Errors.{Error, invalid_argument, Checked}
use ii_file_provider.Author.Calendar.{Date, date, Instant, Zone, east, west, is_date, to_utc}

abbrev pub is_digit : ℕ → Bool
is_digit c = leb b'0' c && leb c b'9'

abbrev pub all_digits : Bytes → Bool
all_digits [] = true
all_digits (c ∷ cs) = is_digit c && all_digits cs

-- `digits`: `from_chars` to an `int`. No caller hands in a sign.
unfoldable pub digits : Bytes → Checked ℕ
digits [] = err invalid_argument
digits (c ∷ cs) = do
  guard (all_digits (c ∷ cs) && ltb (digits_value 0 (c ∷ cs)) 2147483648) invalid_argument
  ok (digits_value 0 (c ∷ cs))

-- The character that the shape wants at an index below 19; 0 stands for a digit.
abbrev pub separator_at : ℕ → ℕ
separator_at i =
    if i == 4 || i == 7
    then b'-'
    else if i == 10
    then b'T'
    else if i == 13 || i == 16
    then b':'
    else 0

abbrev pub fits_at : ℕ → ℕ → Bool
fits_at i c = if separator_at i == 0 then is_digit c else c == separator_at i

-- The loop over the first 19 characters.
unfoldable pub prefix_shape : ℕ → ℕ → Bytes → Bool
prefix_shape zero i cs = true
prefix_shape (suc n) i [] = false
prefix_shape (suc n) i (c ∷ cs) = if fits_at i c then prefix_shape n (i + 1) cs else false

-- `while (offset < raw.size() && digit(raw[offset])) ++offset;`
abbrev pub digit_run : Bytes → ℕ
digit_run [] = 0
digit_run (c ∷ cs) = if is_digit c then suc (digit_run cs) else 0

-- What follows a fraction.
abbrev pub zone_shape : Bytes → Bool
zone_shape [] = false
zone_shape (c ∷ cs) =
    if c == b'Z'
    then length cs == 0
    else (c == b'+' || c == b'-')
      && length cs == 5
      && get_or cs 2 0 == b':'
      && is_digit (get_or cs 0 0)
      && is_digit (get_or cs 1 0)
      && is_digit (get_or cs 3 0)
      && is_digit (get_or cs 4 0)

abbrev pub tail_shape : Bytes → Bool
tail_shape [] = false
tail_shape (c ∷ cs) =
    let n = digit_run cs in
    if c == b'.'
    then (if n == 0 || ltb 3 n then false else zone_shape (drop n cs))
    else zone_shape (c ∷ cs)

unfoldable pub timestamp_shape : Bytes → Bool
unfolding prefix_shape
timestamp_shape raw =
    not (ltb (length raw) 20 || ltb 29 (length raw))
    && prefix_shape 19 0 raw
    && tail_shape (drop 19 raw)

-- `find_first_of("Z+-", offset) - offset`.
abbrev pub zone_start : Bytes → ℕ
zone_start [] = 0
zone_start (c ∷ cs) = if c == b'Z' || c == b'+' || c == b'-' then 0 else suc (zone_start cs)

-- The milliseconds of a fraction, and what follows it.
unfoldable pub fraction : Bytes → Checked (ℕ × Bytes)
unfolding digits
fraction rest =
    let count = zone_start (drop 1 rest) in
    if get_or rest 0 0 == b'.'
    then (do
      ms ← digits (take count (drop 1 rest))
      ok (
        if count == 1 then ms * 100 else if count == 2 then ms * 10 else ms,
        drop count (drop 1 rest),
      ))
    else ok (0, rest)

unfoldable pub zone : Bytes → Checked Zone
unfolding digits
zone rest = if get_or rest 0 0 == b'Z' then ok (east 0) else (do
  hours ← digits (take 2 (drop 1 rest))
  minutes ← digits (take 2 (drop 4 rest))
  guard (leb hours 23 && ltb minutes 60) invalid_argument
  ok (if get_or rest 0 0 == b'+' then east (hours * 60 + minutes) else west (hours * 60 + minutes)))

-- The last `n` decimal digits.
abbrev pub padded : ℕ → ℕ → Bytes
padded zero n = []
padded (suc w) n = padded w (n / 10) ++ (b'0' + n % 10) ∷ []

-- `%04d` of a year that is stored plus one.
unfoldable pub print_year : ℕ → Bytes
print_year zero = b'-' ∷ b'0' ∷ b'0' ∷ b'1' ∷ []
print_year (suc y) = if ltb y 10000 then padded 4 y else to_string y

unfoldable pub print : Instant → Bytes
unfolding print_year
print t =
    print_year t.day.year
    ++ (b'-' ∷ padded 2 t.day.month
        ++ (b'-' ∷ padded 2 t.day.day
            ++ (b'T' ∷ padded 2 (t.minute / 60)
                ++ (b':' ∷ padded 2 (t.minute % 60)
                    ++ (b':' ∷ padded 2 t.second
                        ++ (b'.' ∷ padded 3 t.millisecond ++ b'Z' ∷ []))))))

-- `timestamp` up to `snprintf`.
unfoldable pub instant : Bytes → Checked Instant
unfolding timestamp_shape digits fraction zone
instant raw = do
  guard (timestamp_shape raw) invalid_argument
  y ← digits (take 4 raw)
  mo ← digits (take 2 (drop 5 raw))
  d ← digits (take 2 (drop 8 raw))
  h ← digits (take 2 (drop 11 raw))
  mi ← digits (take 2 (drop 14 raw))
  s ← digits (take 2 (drop 17 raw))
  guard (is_date y mo d && ltb h 24 && ltb mi 60 && ltb s 60) invalid_argument
  (ms, rest) ← fraction (drop 19 raw)
  offset ← zone rest
  let moved = to_utc (date (y + 1) mo d) (h * 60 + mi) offset
  ok (record { day = moved.0; minute = moved.1; second = s; millisecond = ms })

unfoldable pub timestamp : Bytes → Checked Bytes
unfolding instant print
timestamp raw = do t ← instant raw; ok (print t)
