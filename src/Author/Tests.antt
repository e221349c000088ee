-- ===== src/Author/Tests.antt =====
-- Stamps, links and a ledger of two authors, over ASCII.
mod Reading
mod Snapshots
use ii_file_provider.Author.Json.{optional_date, object, member_of, null, end, boolean}
use ii_file_provider.Author.Locale.{valid_time_zone}
use ii_file_provider.Base.{
  true, arith, ◌≡◌, refl, Bool, false, ◌||◌, List, [], ◌∷◌, ◌++◌, some, Bytes, bytes_eq, ok, err,
  codes, ltb, ◌==◌, if◌then◌else◌, length, ℕ, ◌≤◌, guard, ◌>>=◌, ◌>>◌, drop, to_string, find,
}
use ii_file_provider.Base.Search.{lower_byte, bytes_ltb, find_byte, find_first_of, rfind_byte}
use ii_file_provider.Hash.Native
use ii_file_provider.Hash.Words.{add32, rotr, not32}
use ii_file_provider.Hash.Buffer.{copy_at}
use ii_file_provider.Author.Errors.{invalid_argument, Checked}
use ii_file_provider.Author.Calendar.{Instant, date, to_utc, is_date}
use ii_file_provider.Author.Time.{instant, print, timestamp}
use ii_file_provider.Author.Time.Reread.{has_year, timestamp-print}
use ii_file_provider.Author.Time.Canonical.{IsInstant}
use ii_file_provider.Author.Time.Order.{earlier, timestamp-earlier}
use ii_file_provider.Author.Unicode.{
  Utf8proc, Category, control, space_separator, other, scalars, clean, normalize, encoded,
}
use ii_file_provider.Author.Unicode.Ends.{scalars-encoded}
use ii_file_provider.Author.Uri.{valid_uri, host_allowed}
use ii_file_provider.Author.Uri.Escapes.{AllEscaped, valid_uri-AllEscaped}
use ii_file_provider.Author.Quote.{quote, nullable, escape}
use ii_file_provider.Author.Quote.Reader.{unquote, unquote-quote}
use ii_file_provider.Author.Links.{
  FileLink, has_link, file_link, create, from_string, validated_links, maximum_links,
}
use ii_file_provider.Author.Links.Distinct.{IsAccepted, urls, validated_links-IsAccepted}
use ii_file_provider.Author.Links.Printed.{entry, from_string-entry}
use ii_file_provider.Author.Ledger.{
  FileAuthor, Authorship, key_for, empty_ledger, later_of, stamp_row, dump_text, record_change,
}
use ii_file_provider.Author.Ledger.Changes.{set_author}
use ii_file_provider.Author.Ledger.Valid.{IsLedger}
use ii_file_provider.Author.Ledger.Histories.{
  Call, setting_author, setting_links, recording, clearing, run, Grows, start, start-IsLedger,
  run-Good, empty_ledger-run,
}
use ii_file_provider.Author.Ledger.Later.{run-later}
use ii_file_provider.Author.Ledger.Rows.{Holds, set_author-Holds}

abbrev ascii_category : ℕ → Category
ascii_category c =
    if ltb c 32 || c == 127 then control else if c == 32 then space_separator else other

abbrev ascii_next : Bytes → ℕ × ℕ
ascii_next [] = (0, 0)
ascii_next (c ∷ cs) = if ltb c 128 then (1, c) else (0, 0)

abbrev pub ascii : Utf8proc
ascii = record {
  iterate = ascii_next;
  normal_form = λ compatibility text. some text;
  category = ascii_category;
  to_lower = lower_byte;
  encode = λ c. c ∷ [];
}

-- Half an hour before midnight in a zone an hour west of Greenwich, on the last day of the years.
abbrev west_stamp : Bytes
west_stamp = codes "9999-12-31T23:30:00-01:00"

abbrev west_instant : Instant
west_instant = record { day = date 10001 1 1; minute = 30; second = 0; millisecond = 0 }

west_read : instant west_stamp ≡ ok west_instant
unfolding instant is_date to_utc
west_read = refl

timestamp-print_example :
    timestamp (print west_instant)
    ≡ (if has_year west_instant then ok (print west_instant) else err invalid_argument)
timestamp-print_example = timestamp-print west_stamp west_instant west_read

abbrev early : Instant
early = record { day = date 2025 2 29; minute = 1350; second = 5; millisecond = 250 }

abbrev late : Instant
late = record { day = date 2025 3 1; minute = 0; second = 0; millisecond = 0 }

early_read : instant (codes "2024-02-29T23:30:05.25+01:00") ≡ ok early
unfolding instant is_date to_utc
early_read = refl

late_read : instant (codes "2024-02-29T18:00:00-06:00") ≡ ok late
unfolding instant is_date to_utc
late_read = refl

timestamp-earlier_example : bytes_ltb (print early) (print late) ≡ earlier early late
timestamp-earlier_example =
    timestamp-earlier (codes "2024-02-29T23:30:05.25+01:00") (codes "2024-02-29T18:00:00-06:00")
      early late early_read late_read refl refl

two_points : encoded ascii false (b'a' ∷ b'b' ∷ []) ≡ ok (codes "ab")
unfolding encoded
two_points = refl

scalars-encoded_example : scalars ascii (codes "ab") ≡ ok (b'a' ∷ b'b' ∷ [])
scalars-encoded_example =
    scalars-encoded ascii false (b'a' ∷ b'b' ∷ []) (codes "ab")
      ((refl, λ rest. refl), ((refl, λ rest. refl), tt)) two_points

unquote-quote_example :
    unquote (quote (codes "a\"\\\n\t") ++ codes ",") ≡ some (codes "a\"\\\n\t", codes ",")
unquote-quote_example = unquote-quote (codes "a\"\\\n\t") (codes ",")

from_string-entry_example :
    from_string ascii (entry (codes "Home") (codes "https://a.b/?x|y"))
    ≡ create ascii (codes "Home") (codes "https://a.b/?x|y")
unfolding find_byte
from_string-entry_example =
    from_string-entry ascii (codes "Home") (codes "https://a.b/?x|y") refl (λ e. cc) (λ e. cc)

abbrev two_links : List FileLink
two_links =
    file_link (codes " Home ") (codes "https://a.b/") ∷ file_link (codes "Far") (codes "a/b") ∷ []

abbrev two_clean_links : List FileLink
two_clean_links =
    file_link (codes "Home") (codes "https://a.b/") ∷ file_link (codes "Far") (codes "a/b") ∷ []

two_links_valid : validated_links ascii two_links ≡ ok two_clean_links
unfolding validated_links create clean normalize scalars encoded find_byte valid_uri find_first_of
    rfind_byte host_allowed has_link bytes_eq
two_links_valid = refl

validated_links-IsAccepted_example :
    IsAccepted ascii (urls two_links) two_clean_links
    × (length two_clean_links ≡ length two_links)
    × (length two_links ≤ maximum_links)
validated_links-IsAccepted_example =
    validated_links-IsAccepted ascii two_links two_clean_links two_links_valid

abbrev pub writer : FileAuthor
writer = record {
  profile = codes "{\"sub\":\"w\"}";
  service_origin = codes "https://a.b";
  sub = codes "w";
}

abbrev pub noon : Bytes
noon = codes "2024-02-29T12:00:00Z"

abbrev result_of : Checked (Bool × Authorship) → Bool × Authorship
result_of (ok result) = result
result_of (err e) = (false, start)

abbrev first_result : Bool × Authorship
first_result = result_of (set_author ascii start writer two_links noon)

first_call : set_author ascii start writer two_links noon ≡ ok first_result
unfolding set_author validated_links create clean normalize scalars encoded find_byte valid_uri
    find_first_of rfind_byte host_allowed has_link bytes_eq key_for Native.sha256 Native.transform
    Native.load_words Native.extend_words Native.rounds copy_at add32 rotr not32 find record_change
    later_of bytes_ltb stamp_row timestamp is_date to_utc dump_text quote nullable escape to_string
first_call = refl

set_author-Holds_example :
    (key : Bytes) × (valid : List FileLink) × (key_for writer ≡ ok key)
    × (validated_links ascii two_links ≡ ok valid)
    × Holds writer key valid first_result
set_author-Holds_example =
    set_author-Holds ascii start writer two_links noon first_result first_call

abbrev four_calls : List Call
four_calls =
    setting_author writer two_links noon
    ∷ recording west_stamp
    ∷ clearing
    ∷ setting_links [] noon
    ∷ []

run-Good_example :
    IsLedger ascii ((run ascii start four_calls).1)
    × Grows ((run ascii start four_calls).0) start ((run ascii start four_calls).1)
run-Good_example = run-Good ascii start four_calls (start-IsLedger ascii)

abbrev noon_instant : Instant
noon_instant = record { day = date 2025 2 29; minute = 720; second = 0; millisecond = 0 }

late_valid : IsInstant late
unfolding is_date
late_valid = record {
  dated = refl;
  minute = omega arith;
  second = omega arith;
  millisecond = omega arith;
}

noon_instant-IsInstant : IsInstant noon_instant
unfolding is_date
noon_instant-IsInstant = record {
  dated = refl;
  minute = omega arith;
  second = omega arith;
  millisecond = omega arith;
}

abbrev at_noon : Authorship
at_noon = (run ascii start (recording noon ∷ [])).1

abbrev two_later : List Call
two_later = recording (codes "2024-02-28T23:00:00Z") ∷ recording (codes "2024-03-01T00:00:00Z") ∷ []

at_noon_modified : at_noon.modified_at ≡ print noon_instant
unfolding print run record_change timestamp is_date stamp_row nullable later_of to_utc quote escape
    to_string
at_noon_modified = refl

two_later_modified : (run ascii at_noon two_later).1.modified_at ≡ print late
unfolding print run record_change timestamp is_date stamp_row nullable later_of to_utc quote escape
    to_string bytes_ltb
two_later_modified = refl

run-later_example : earlier late noon_instant ≡ false
run-later_example =
    run-later ascii at_noon two_later noon_instant late
      (run-Good ascii start (recording noon ∷ []) (start-IsLedger ascii)).0
      ((noon_instant-IsInstant, (omega arith, omega arith)), at_noon_modified)
      ((late_valid, (omega arith, omega arith)), two_later_modified)

-- Behind a stamp of the year 10000, an earlier one is taken for a later one.
abbrev two_thousand_years : List Call
two_thousand_years = recording (codes "9999-12-31T23:59:59-01:00") ∷ recording noon ∷ []

goes_back : (run ascii start two_thousand_years).1.modified_at ≡ codes "2024-02-29T12:00:00.000Z"
unfolding run record_change timestamp is_date stamp_row nullable later_of to_utc to_string quote
    escape bytes_ltb
goes_back = refl

empty_ledger-run_example :
    (l : Authorship) × (empty_ledger ≡ ok l)
    × IsLedger ascii ((run ascii l four_calls).1)
    × ((run ascii l four_calls).1.revision ≡ (run ascii l four_calls).0)
empty_ledger-run_example = empty_ledger-run ascii four_calls

spaced_uri : valid_uri ascii (codes "https://a.b/c%20d") true ≡ true
unfolding valid_uri scalars find_byte find_first_of rfind_byte host_allowed bytes_eq
spaced_uri = refl

valid_uri-AllEscaped_example :
    AllEscaped (codes "https://a.b/c%20d")
    × (1 ≤ length (codes "https://a.b/c%20d"))
    × (length (codes "https://a.b/c%20d") ≤ 8192)
valid_uri-AllEscaped_example =
    valid_uri-AllEscaped ascii (codes "https://a.b/c%20d") true spaced_uri

run_offset : valid_time_zone (λ p. false) (λ p. false) (codes "UTC+05:30") ≡ ok true
unfolding valid_time_zone bytes_eq ii_file_provider.Author.Time.digits
run_offset = refl

run_late_offset : valid_time_zone (λ p. false) (λ p. false) (codes "UTC+15:30") ≡ ok false
unfolding valid_time_zone bytes_eq ii_file_provider.Author.Time.digits
run_late_offset = refl

run_parent : valid_time_zone (λ p. false) (λ p. true) (codes "../etc/passwd") ≡ ok false
unfolding valid_time_zone bytes_eq
run_parent = refl

run_no_date : optional_date (object (member_of (codes "at") null end)) (codes "at") false ≡ ok []
unfolding optional_date bytes_eq
run_no_date = refl

run_wrong_date :
    optional_date (object (member_of (codes "at") (boolean true) end)) (codes "at") false
    ≡ err invalid_argument
unfolding optional_date bytes_eq
run_wrong_date = refl
