-- ===== src/Author/Calendar.antt =====
-- The days and the clock of std::chrono that Native/src/Core/Authorship.cpp uses: year_month_day::ok,
-- and a day and a time of day moved by less than a day.
use ii_file_provider.Base.{ℕ, ◌+◌, ◌-◌, ◌%◌, Bool, not, ◌&&◌, ◌||◌, ltb, leb, ◌==◌, if◌then◌else◌}

-- `year` is the year plus one: a time of 0000-01-01 may lie in year -1.
pub record Date : Type 0 where
  pub year : ℕ
  pub month : ℕ
  pub day : ℕ

abbrev pub date : ℕ → ℕ → ℕ → Date
date later_year m d = record { year = later_year; month = m; day = d }

unfoldable pub is_leap : ℕ → Bool
is_leap y = y % 4 == 0 && (not (y % 100 == 0) || y % 400 == 0)

abbrev pub is_short_month : ℕ → Bool
is_short_month m = m == 4 || m == 6 || m == 9 || m == 11

unfoldable pub days_in_month : ℕ → ℕ → ℕ
unfolding is_leap
days_in_month y m =
    let february = if is_leap y then 29 else 28 in
    if m == 2 then february else if is_short_month m then 30 else 31

-- `year_month_day::ok` for the year y.
unfoldable pub is_date : ℕ → ℕ → ℕ → Bool
unfolding days_in_month
is_date y m d = leb 1 m && leb m 12 && leb 1 d && leb d (days_in_month y m)

unfoldable pub next_day : Date → Date
unfolding days_in_month
next_day t =
    if ltb t.day (days_in_month (t.year - 1) t.month)
    then date t.year t.month (t.day + 1)
    else if ltb t.month 12
    then date t.year (t.month + 1) 1
    else date (t.year + 1) 1 1

unfoldable pub previous_day : Date → Date
unfolding days_in_month
previous_day t =
    if ltb 1 t.day
    then date t.year t.month (t.day - 1)
    else if ltb 1 t.month
    then date t.year (t.month - 1) (days_in_month (t.year - 1) (t.month - 1))
    else date (t.year - 1) 12 31

-- A point in time in UTC.
pub record Instant : Type 0 where
  pub day : Date
  pub minute : ℕ
  pub second : ℕ
  pub millisecond : ℕ

-- The offset of a time zone from UTC, in minutes.
pub data Zone : Type 0 where
  east : ℕ → Zone
  west : ℕ → Zone

-- `floor<days>` of a day and a minute of it, less the offset.
unfoldable pub to_utc : Date → ℕ → Zone → Date × ℕ
unfolding next_day previous_day
to_utc t minute (east offset) =
    if leb offset minute then (t, minute - offset) else (previous_day t, minute + 1440 - offset)
to_utc t minute (west offset) =
    if ltb (minute + offset) 1440
    then (t, minute + offset)
    else (next_day t, minute + offset - 1440)
