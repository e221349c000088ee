-- ===== src/Author/Time/Order.antt =====
-- The order of the texts that `timestamp` of Native/src/Core/Authorship.cpp prints.
use ii_file_provider.Base.{
  ℕ, zero, suc, ◌+◌, ◌-◌, ◌/◌, ◌%◌, ◌^◌, ◌≤◌, ◌<◌, ◌≡◌, refl, ap, ap₂, ◌∙◌, Bool, true, false, ◌&&◌,
  ◌||◌, [], ◌∷◌, ◌++◌, append_assoc, Bytes, ltb, ◌==◌, arith, ok, OnOk-ok,
}
use native.Mathlib.Numerals.{unary_clauses}
use ii_file_provider.Base.Search.{bytes_ltb}
use ii_file_provider.Author.Calendar.{Instant}
use ii_file_provider.Author.Time.{padded, print_year, print, instant}
use ii_file_provider.Author.Time.Canonical.{IsInstant, date_bounds}
use ii_file_provider.Author.Time.Sound.{IsComputed, instant-IsInstant}
use ii_file_provider.Author.Time.Reread.{has_year, inside_years}

-- A number before the rest.
abbrev pub lexical : ℕ → ℕ → Bool → Bool
lexical m n rest = ltb m n || (m == n && rest)

-- Whether a point in time is before another one.
unfoldable pub earlier : Instant → Instant → Bool
earlier a b = lexical a.day.year b.day.year (
    lexical a.day.month b.day.month (
      lexical a.day.day b.day.day
        (lexical a.minute b.minute (lexical a.second b.second (ltb a.millisecond b.millisecond)))))

lexical-digit :
    (m n : ℕ) (x : Bool)
    → lexical (m / 10) (n / 10) (lexical (b'0' + m % 10) (b'0' + n % 10) x) ≡ lexical m n x
lexical-digit m n x = ground arith

lexical-hour :
    (m n : ℕ) (x : Bool) → lexical (m / 60) (n / 60) (lexical (m % 60) (n % 60) x) ≡ lexical m n x
lexical-hour m n x = ground arith

lexical-false : (m n : ℕ) → lexical m n false ≡ ltb m n
lexical-false m n = ground arith

bytes_ltb-lexical :
    (c d : ℕ) (r s : Bytes) → bytes_ltb (c ∷ r) (d ∷ s) ≡ lexical c d (bytes_ltb r s)
unfolding bytes_ltb
bytes_ltb-lexical c d r s = refl

no_digits : (m n : ℕ) (x : Bool) → m < 1 → n < 1 → x ≡ lexical m n x
no_digits m n x hm hn = ground arith

tenth : (w m : ℕ) → m < 10 ^ suc w → m / 10 < 10 ^ w
tenth w m h = let flat = simp unary_clauses at h in omega (arith, flat)

-- Numbers of as many digits are in the order of their texts.
padded-lexical :
    (w m n : ℕ) (r s : Bytes)
    → m < 10 ^ w
    → n < 10 ^ w
    → bytes_ltb (padded w m ++ r) (padded w n ++ s) ≡ lexical m n (bytes_ltb r s)
padded-lexical zero m n r s hm hn = no_digits m n (bytes_ltb r s) hm hn
padded-lexical (suc w) m n r s hm hn =
    ap₂ bytes_ltb (append_assoc (padded w (m / 10)) ((b'0' + m % 10) ∷ []) r)
      (append_assoc (padded w (n / 10)) ((b'0' + n % 10) ∷ []) s)
    ∙ padded-lexical w (m / 10) (n / 10) ((b'0' + m % 10) ∷ r) ((b'0' + n % 10) ∷ s) (tenth w m hm)
        (tenth w n hn)
    ∙ ap (lexical (m / 10) (n / 10)) (bytes_ltb-lexical (b'0' + m % 10) (b'0' + n % 10) r s)
    ∙ lexical-digit m n (bytes_ltb r s)

-- The order behind a separator.
behind : (c : ℕ) (r s : Bytes) → bytes_ltb (c ∷ r) (c ∷ s) ≡ bytes_ltb r s
behind c r s = bytes_ltb-lexical c c r s ∙ same c (bytes_ltb r s)
  where
    same : (c : ℕ) (x : Bool) → lexical c c x ≡ x
    same c x = ground arith

field :
    (w m n c : ℕ) (r s : Bytes) (x : Bool)
    → m < 10 ^ w
    → n < 10 ^ w
    → bytes_ltb r s ≡ x
    → bytes_ltb (padded w m ++ c ∷ r) (padded w n ++ c ∷ s) ≡ lexical m n x
field w m n c r s x hm hn e =
    padded-lexical w m n (c ∷ r) (c ∷ s) hm hn ∙ ap (lexical m n) (behind c r s ∙ e)

print_year-padded : (y : ℕ) → (1 ≤ y) × (y ≤ 10000) → print_year y ≡ padded 4 (y - 1)
unfolding print_year
print_year-padded zero h = absurd (omega (arith, h.0))
print_year-padded (suc y) h =
    let small : ltb y 10000 ≡ true = ground arith in
    let same : y ≡ suc y - 1 = omega arith in rw small (ap (padded 4) same)

lexical-year :
    (y z : ℕ) (x : Bool)
    → (1 ≤ y) × (y ≤ 10000)
    → (1 ≤ z) × (z ≤ 10000)
    → lexical (y - 1) (z - 1) x ≡ lexical y z x
lexical-year y z x hy hz = ground arith

-- A two-digit hour and minute that are a minute of the day.
abbrev clock : ℕ → Bytes → Bytes
clock minute rest = padded 2 (minute / 60) ++ b':' ∷ (padded 2 (minute % 60) ++ b':' ∷ rest)

clock-lexical :
    (m n : ℕ) (r s : Bytes) (x : Bool)
    → m < 1440
    → n < 1440
    → bytes_ltb r s ≡ x
    → bytes_ltb (clock m r) (clock n s) ≡ lexical m n x
clock-lexical m n r s x hm hn e =
    field 2 (m / 60) (n / 60) b':' _ _ _ (omega arith) (omega arith)
      (field 2 (m % 60) (n % 60) b':' r s x (omega arith) (omega arith) e)
    ∙ lexical-hour m n x

millisecond-lexical :
    (m n : ℕ)
    → m < 1000
    → n < 1000
    → bytes_ltb (padded 3 m ++ b'Z' ∷ []) (padded 3 n ++ b'Z' ∷ []) ≡ ltb m n
unfolding bytes_ltb
millisecond-lexical m n hm hn = field 3 m n b'Z' [] [] false hm hn refl ∙ lexical-false m n

pub print-earlier :
    (a b : Instant)
    → IsInstant a
    → IsInstant b
    → (1 ≤ a.day.year) × (a.day.year ≤ 10000)
    → (1 ≤ b.day.year) × (b.day.year ≤ 10000)
    → bytes_ltb (print a) (print b) ≡ earlier a b
unfolding print earlier
print-earlier a b ha hb ya yb =
    let da = date_bounds (a.day.year - 1) a.day.month a.day.day ha.dated in
    let db = date_bounds (b.day.year - 1) b.day.month b.day.day hb.dated in
    rw (print_year-padded a.day.year ya, print_year-padded b.day.year yb)
      (field 4 (a.day.year - 1) (b.day.year - 1) b'-' _ _ _ (omega (arith, ya.1))
          (omega (arith, yb.1))
          (field 2 a.day.month b.day.month b'-' _ _ _ (omega (arith, da.1)) (omega (arith, db.1)) (
            field 2 a.day.day b.day.day b'T' _ _ _ (omega (arith, da.3)) (omega (arith, db.3)) (
              clock-lexical a.minute b.minute _ _ _ ha.minute hb.minute (
                field 2 a.second b.second b'.' _ _ _ (omega (arith, ha.second))
                  (omega (arith, hb.second))
                  (millisecond-lexical a.millisecond b.millisecond ha.millisecond
                    hb.millisecond)))))
        ∙ lexical-year a.day.year b.day.year _ ya yb)

-- The texts of two stamps whose years are from 0 to 9999 are in the order of the points in time that
-- the stamps stand for, whatever their time zones and fractions.
pub timestamp-earlier :
    (raw other : Bytes) (a b : Instant)
    → instant raw ≡ ok a
    → instant other ≡ ok b
    → has_year a ≡ true
    → has_year b ≡ true
    → bytes_ltb (print a) (print b) ≡ earlier a b
timestamp-earlier raw other a b ea eb ya yb =
    print-earlier a b (OnOk-ok IsComputed (instant raw) a (instant-IsInstant raw) ea).0
      (OnOk-ok IsComputed (instant other) b (instant-IsInstant other) eb).0
      (inside_years a.day.year ya) (inside_years b.day.year yb)
