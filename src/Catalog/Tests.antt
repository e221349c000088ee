-- ===== src/Catalog/Tests.antt =====
-- A query with quotes, and a file that is indexed twice.
use ii_file_provider.Base.{
  List, Bool, not, ◌≡◌, refl, true, false, [], ◌∷◌, some, Bytes, bytes_eq, ok, codes, find, is_some,
  length, flatten,
}
use ii_file_provider.Base.Search.{find_byte}
use ii_file_provider.Catalog.Match.{match_expression}
use ii_file_provider.Catalog.Match.Reader.{read_query, words, inked, match_expression-words}
use ii_file_provider.Catalog.Index.{
  result_of, search, FileSearchEntry, FileSearchIndex, has_path, contains_path,
}
use ii_file_provider.Catalog.Index.Kept.{run, row_at, Agrees, Same, row_at-run, contains_path-run}

abbrev asked : Bytes
asked = codes " say \"hi\" OR not* "

abbrev asked_expression : Bytes
asked_expression = codes "\"say\"* AND \"\"\"hi\"\"\"* AND \"OR\"* AND \"not*\"*"

asked_matches : match_expression asked ≡ ok asked_expression
unfolding match_expression find_byte
asked_matches = refl

match_expression-words_example :
    (read_query asked_expression ≡ some (words (length asked) asked))
    × (flatten (words (length asked) asked) ≡ inked asked)
match_expression-words_example = match_expression-words asked asked_expression asked_matches

abbrev report : FileSearchEntry
report = record {
  path = codes "a/report";
  title = codes "Report";
  file_key = codes "k1";
  mime_type = codes "text/plain";
  classification = codes "draft";
  search_terms = codes "report";
  size = 5;
  has_classification = true;
  has_presentation = false;
  metadata_pending = false;
}

abbrev other_report : FileSearchEntry
other_report = record {
  path = codes "a/report";
  title = codes "Other";
  file_key = codes "k2";
  mime_type = [];
  classification = codes "final";
  search_terms = codes "other";
  size = 7;
  has_classification = true;
  has_presentation = true;
  metadata_pending = true;
}

abbrev empty_index : FileSearchIndex
empty_index = record { entries = []; indexed = [] }

abbrev one_report : FileSearchIndex
one_report = record { entries = report ∷ []; indexed = codes "a/report" ∷ [] }

report_found : row_at one_report (codes "a/report") ≡ some report
unfolding find bytes_eq
report_found = refl

abbrev always : FileSearchEntry → List FileSearchEntry → Bool
always e rows = true

-- SQLite fails for the row with this title.
abbrev all_but_other : FileSearchEntry → List FileSearchEntry → Bool
all_but_other e rows = not (bytes_eq e.title (codes "Other"))

row_at-run_example :
    (row : FileSearchEntry) × (row_at (run always one_report (other_report ∷ [])) (codes "a/report")
      ≡ some row)
    × Same report row
row_at-run_example =
    row_at-run always (codes "a/report") one_report (other_report ∷ []) report report_found refl

empty_index-Agrees : Agrees empty_index
unfolding find has_path
empty_index-Agrees path = refl

-- An entry without a path, which `upsert` refuses.
abbrev nameless : FileSearchEntry
nameless = record {
  path = [];
  title = codes "Nameless";
  file_key = codes "k0";
  mime_type = [];
  classification = [];
  search_terms = [];
  size = 0;
  has_classification = false;
  has_presentation = false;
  metadata_pending = false;
}

contains_path-run_example :
    contains_path
      (run all_but_other empty_index (report ∷ nameless ∷ other_report ∷ []))
      (codes "a/report")
    ≡ is_some (
        row_at
          (run all_but_other empty_index (report ∷ nameless ∷ other_report ∷ []))
          (codes "a/report"))
contains_path-run_example =
    contains_path-run all_but_other empty_index (report ∷ nameless ∷ other_report ∷ [])
      (codes "a/report") empty_index-Agrees

abbrev letter : FileSearchEntry
letter = record {
  path = codes "a/letter";
  title = codes "Letter";
  file_key = codes "k3";
  mime_type = codes "text/plain";
  classification = [];
  search_terms = codes "letter";
  size = 3;
  has_classification = false;
  has_presentation = false;
  metadata_pending = true;
}

abbrev two_files : FileSearchIndex
two_files = record {
  entries = report ∷ letter ∷ [];
  indexed = codes "a/letter" ∷ codes "a/report" ∷ [];
}

abbrev never_ranked : Bytes → List FileSearchEntry → List FileSearchEntry
never_ranked expression rows = []

abbrev two_by_path : List FileSearchEntry → List FileSearchEntry
two_by_path rows = letter ∷ report ∷ []

blank_query : match_expression (codes " ") ≡ ok []
unfolding match_expression find_byte
blank_query = refl

two_found :
    search two_by_path never_ranked two_files (codes " ") 10
    ≡ ok (result_of letter ∷ result_of report ∷ [])
unfolding search find_byte
two_found = refl
