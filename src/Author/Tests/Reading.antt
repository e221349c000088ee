-- ===== src/Author/Tests/Reading.antt =====
-- A ledger with one link, read by `fromDump` over ASCII and a JSON library of one document.
use ii_file_provider.Base.{
  ◌+◌, ◌≡◌, refl, Bool, true, false, List, [], ◌∷◌, Option, none, some, codes, digits_value,
  bytes_eq, to_string,
}
use ii_file_provider.Base.Search.{find_byte, find_first_of, rfind_byte}
use ii_file_provider.Author.Time.{timestamp}
use ii_file_provider.Author.Calendar.{is_date, to_utc}
use ii_file_provider.Author.Unicode.{clean, normalize, scalars, encoded}
use ii_file_provider.Author.Uri.{valid_uri, host_allowed}
use ii_file_provider.Author.Quote.{quote, nullable, escape}
use ii_file_provider.Author.Json.{
  Json, JsonLibrary, null, number, string, array, object, nil, cons, end, member_of, keys, text,
  optional_date,
}
use ii_file_provider.Author.Links.{file_link, create, validated_links, has_link}
use ii_file_provider.Author.Details.{Zones}
use ii_file_provider.Author.Ledger.{Authorship}
use ii_file_provider.Author.Ledger.Valid.{IsLedger}
use ii_file_provider.Author.Ledger.Histories.{Call, recording, clearing, run}
use ii_file_provider.Author.Ledger.Reading.{from_dump, schema_links}
use ii_file_provider.Author.Ledger.FromDump.{from_dump-run}
use ii_file_provider.Author.Tests.{ascii, noon, start}

abbrev document : Json
document = object (
    member_of (codes "authors") (array nil) (
      member_of (codes "firstEditor") null (
        member_of (codes "lastAuthor") null (
          member_of (codes "links")
            (array (
              cons
                (object (
                  member_of (codes "name") (string (codes " Home "))
                    (member_of (codes "url") (string (codes "https://a.b/")) end)))
                nil))
            (member_of (codes "modifiedAt") (string noon) (
              member_of (codes "participants") (array nil) (
                member_of (codes "revision") (string (codes "7"))
                  (member_of (codes "schemaVersion") (number (codes "3")) end))))))))

abbrev both_empty : Json → Json → Bool
both_empty null null = true
both_empty (array nil) (array nil) = true
both_empty _ _ = false

abbrev one_document : JsonLibrary
one_document = record {
  parse = λ bytes. some document;
  dump = λ value. some (codes "{}");
  equal = both_empty;
  natural = λ digits. some (digits_value 0 digits);
}

abbrev pub no_zones : Zones
no_zones = record { located = λ name. false; is_file = λ path. false }

abbrev ledger_of : Option Authorship → Authorship
ledger_of none = start
ledger_of (some l) = l

abbrev read_back : Authorship
read_back = ledger_of (from_dump ascii one_document no_zones (codes "{}"))

read_back-content :
    (read_back.revision ≡ 7)
    × (read_back.links ≡ file_link (codes "Home") (codes "https://a.b/") ∷ [])
unfolding from_dump keys text optional_date timestamp is_date to_utc validated_links create clean
    normalize scalars encoded find_byte valid_uri find_first_of rfind_byte host_allowed has_link
    bytes_eq schema_links quote nullable escape to_string
read_back-content = (refl, refl)

is_read : from_dump ascii one_document no_zones (codes "{}") ≡ some read_back
unfolding from_dump keys text optional_date timestamp is_date to_utc validated_links create clean
    normalize scalars encoded find_byte valid_uri find_first_of rfind_byte host_allowed has_link
    bytes_eq schema_links quote nullable escape to_string
is_read = refl

abbrev two_calls : List Call
two_calls = recording noon ∷ clearing ∷ []

from_dump-run_example :
    IsLedger ascii read_back
    × IsLedger ascii (run ascii read_back two_calls).1
    × ((run ascii read_back two_calls).1.revision
        ≡ read_back.revision + (run ascii read_back two_calls).0)
from_dump-run_example =
    from_dump-run ascii one_document no_zones (codes "{}") read_back two_calls is_read
