-- ===== src/Store/Tests.antt =====
-- A package with one session and one file of two bytes, imported, moved and erased.
use ii_file_provider.Base.{
  ◌⊎◌, find, update_rows, bytes_eq, to_string, ◌≡◌, ◌≢◌, refl, Bool, true, false, List, [], ◌∷◌,
  Option, none, some, Result, ok, err, codes, arith, length,
}
use ii_file_provider.Hash.Object
use ii_file_provider.Hash.Object.Digest.{standard_hex}
use ii_file_provider.Hash.Buffer.{copy_at}
use ii_file_provider.Hash.Words.{add32, rotr, not32}
use ii_file_provider.Store.Checks.{field, path_valid}
use ii_file_provider.Store.Keys.{add, add_all, fields, validation_key}
use ii_file_provider.Store.Validate.{
  require, validate, link_valid, links_valid, author_eq, payload_valid, parts_valid,
}
use ii_file_provider.Store.Publish.{
  insert_revision, insert_raw, insert_parts, parts_allowed, update_head, publish,
}
use ii_file_provider.Store.Tables.{
  Metadata, Session, ObjectRecord, Chunk, Store, Error, version_conflict,
}
use ii_file_provider.Store.Reads.{
  get, chunks, context, raw_document, get_session, active_session, join_object, join_revision,
  join_session,
}
use ii_file_provider.Store.Ingest.{
  Source, ingest, ingest_reads, take_read, store_chunk, place_chunk,
}
use ii_file_provider.Store.Api.{
  revise_body, move_body, erase_body, move, erase, WriteOptions, Call, import_file, import_body,
  authorship_checked, document_checked, insert_object, imports, moves, erases, perform, run,
}
use ii_file_provider.Store.Appends.{Appended}
use ii_file_provider.Store.Appends.Calls.{moving, erasing, perform-Appended, perform-lost_update}
use ii_file_provider.Store.Content.{delivered, extract_parts, ingest-extract_parts}
use ii_file_provider.Store.Extends.{Extends}
use ii_file_provider.Store.Extends.Api.{run-Extends}
use ii_file_provider.Store.Diff.{
  ObjectChange, no_chunk, changes_from, diff, patch, unpatch, diff-patch,
}
use ii_file_provider.Store.Framing.{frames}
use ii_file_provider.Store.Framing.Binding.{Collision, validation_key-fields}
use ii_file_provider.Store.Imports.{Imported, import_file-Imported}
use ii_file_provider.Store.History.{get-run}

abbrev nothing : Metadata
nothing = record { format = []; payload = [] }

abbrev session : Session
session = record {
  key = codes "s";
  author = record { origin = codes "o"; subject = codes "u"; display_name = []; profile = nothing };
  device = codes "d";
  description = [];
  started_at = 1;
  ended_at = 0;
}

abbrev one_session : Store
one_session = record {
  container = codes "c";
  sessions = session ∷ [];
  contexts = record { session_key = codes "s"; context = [] } ∷ [];
  objects = [];
  revisions = [];
  chunks = [];
  revision_chunks = [];
  raw_revisions = [];
  journal = [];
}

abbrev options : WriteOptions
options = record { authorship = none; source_stamp = []; stop = false }

abbrev two_bytes : Source
two_bytes = record {
  is_file = true;
  size = 2;
  modified = 7;
  reads = record { stop = false; bytes = codes "hi" } ∷ [];
  late_stop = false;
  bad = false;
  direct_after = true;
  size_after = 2;
  modified_after = 7;
}

-- No document of these calls is asked about.
abbrev any_document : Metadata → Bool
any_document document = true

abbrev importing : Call
importing = imports 2 (codes "k") two_bytes (codes "a") (codes "s") options

abbrev imported : Store
imported = (perform any_document importing one_session).1

abbrev record_of : Option ObjectRecord → ObjectRecord
record_of (some r) = r
record_of none = record {
  key = [];
  index_key = 0;
  version = 0;
  path = [];
  sha256 = [];
  size = 0;
  author = session.author;
  session_key = [];
  recorded_at = 0;
  operation = [];
  deleted = false;
  parent_key = [];
  validation_key = [];
  authorship = nothing;
  source_stamp = [];
  schema_version = 0;
}

abbrev first_revision : ObjectRecord
first_revision = record_of (get imported (codes "k") 1)

imported_head : get imported (codes "k") 0 ≡ some first_revision
unfolding perform import_file import_body authorship_checked field path_valid document_checked
    insert_object ingest ingest_reads take_read store_chunk place_chunk publish context raw_document
    validation_key add_all add fields insert_revision insert_raw insert_parts parts_allowed
    update_head find update_rows get_session active_session bytes_eq to_string get join_object
    join_revision join_session Object.digest Object.update Object.finish Object.block
    Object.load_words Object.extend_words Object.rounds copy_at add32 rotr not32
imported_head = refl

abbrev result_of : Result Error ObjectRecord → ObjectRecord
result_of (ok r) = r
result_of (err e) = record_of none

abbrev moving_it : Call
moving_it = moves 3 (codes "k") (codes "b") 1 (codes "s") options

abbrev erasing_it : Call
erasing_it = erases 4 (codes "k") 1 (codes "s")

abbrev moved : ObjectRecord
moved = result_of (perform any_document moving_it imported).0

moving_it_succeeds : (perform any_document moving_it imported).0 ≡ ok moved
unfolding perform import_file import_body authorship_checked field path_valid document_checked
    insert_object ingest ingest_reads take_read store_chunk place_chunk publish context raw_document
    revise_body move_body erase_body move erase require validate link_valid links_valid author_eq
    run chunks validation_key add_all add fields insert_revision insert_raw insert_parts
    parts_allowed update_head find update_rows get_session active_session bytes_eq to_string get
    join_object join_revision join_session Object.digest Object.update Object.finish Object.block
    Object.load_words Object.extend_words Object.rounds copy_at add32 rotr not32
moving_it_succeeds = refl

perform-Appended_example :
    Appended imported (codes "k") 1 (moved, (perform any_document moving_it imported).1)
perform-Appended_example =
    perform-Appended any_document imported (codes "k") 1 moving_it moved
      (moving 3 (codes "b") (codes "s") options) moving_it_succeeds

perform-lost_update_example :
    (perform any_document erasing_it (perform any_document moving_it imported).1).0 ≢ ok moved
perform-lost_update_example =
    perform-lost_update any_document imported (codes "k") 1 moving_it erasing_it moved moved
      (moving 3 (codes "b") (codes "s") options) (erasing 4 (codes "s")) moving_it_succeeds

get-run_example :
    get (run any_document (moving_it ∷ erasing_it ∷ []) imported) (codes "k") 1
    ≡ some first_revision
unfolding perform import_file import_body authorship_checked field path_valid document_checked
    insert_object ingest ingest_reads take_read store_chunk place_chunk publish context raw_document
    revise_body move_body erase_body move erase require validate link_valid links_valid author_eq
    run chunks validation_key add_all add fields insert_revision insert_raw insert_parts
    parts_allowed update_head find update_rows get_session active_session bytes_eq to_string get
    join_object join_revision join_session Object.digest Object.update Object.finish Object.block
    Object.load_words Object.extend_words Object.rounds copy_at add32 rotr not32
get-run_example =
    get-run any_document (moving_it ∷ erasing_it ∷ []) imported (codes "k") 1 first_revision
      (omega arith) refl

abbrev part : Chunk
part = record {
  hash = codes "8f434346648f6b96df89dda901c5176b10a6d83961dd3c1ac88b59b2dc327aa4";
  size = 2;
}

abbrev ingested : Result Error (List Chunk × ObjectRecord × Store)
ingested = ingest two_bytes (record_of none) one_session

abbrev ingested_of :
    Result Error (List Chunk × ObjectRecord × Store) → List Chunk × ObjectRecord × Store
ingested_of (ok p) = p
ingested_of (err e) = ([], record_of none, one_session)

ingest-extract_parts_example :
    (length (delivered two_bytes.reads) ≡ 2)
    × ((ingested_of ingested).1.size ≡ 2)
    × ((ingested_of ingested).1.sha256 ≡ standard_hex (codes "hi"))
    × (extract_parts (ingested_of ingested).2 (ingested_of ingested).0 ≡ ok (codes "hi"))
unfolding perform import_file import_body authorship_checked field path_valid document_checked
    insert_object ingest ingest_reads take_read store_chunk place_chunk publish context raw_document
    revise_body move_body erase_body move erase require validate link_valid links_valid author_eq
    run chunks validation_key add_all add fields insert_revision insert_raw insert_parts
    parts_allowed update_head find update_rows get_session active_session bytes_eq to_string get
    join_object join_revision join_session Object.digest Object.update Object.finish Object.block
    Object.load_words Object.extend_words Object.rounds copy_at add32 rotr not32
ingest-extract_parts_example =
    ingest-extract_parts two_bytes (record_of none) (ingested_of ingested).1 one_session
      (ingested_of ingested).2 (ingested_of ingested).0 refl

-- The second of the two calls tells its client why.
erasing_it_conflicts :
    (perform any_document erasing_it (perform any_document moving_it imported).1).0
    ≡ err version_conflict
unfolding perform import_file import_body authorship_checked field path_valid document_checked
    insert_object ingest ingest_reads take_read store_chunk place_chunk publish context raw_document
    revise_body move_body erase_body move erase require validate link_valid links_valid author_eq
    run chunks validation_key add_all add fields insert_revision insert_raw insert_parts
    parts_allowed update_head find update_rows get_session active_session bytes_eq to_string get
    join_object join_revision join_session Object.digest Object.update Object.finish Object.block
    Object.load_words Object.extend_words Object.rounds copy_at add32 rotr not32
erasing_it_conflicts = refl

moved_validates : validate (perform any_document moving_it imported).1 (codes "k") 2 true ≡ ok true
unfolding perform import_file import_body authorship_checked field path_valid document_checked
    insert_object ingest ingest_reads take_read store_chunk place_chunk publish context raw_document
    revise_body move_body erase_body move erase require validate link_valid links_valid
    payload_valid parts_valid author_eq run chunks validation_key add_all add fields insert_revision
    insert_raw insert_parts parts_allowed update_head find update_rows get_session active_session
    bytes_eq to_string get join_object join_revision join_session Object.digest Object.update
    Object.finish Object.block Object.load_words Object.extend_words Object.rounds copy_at add32
    rotr not32
moved_validates = refl

run-Extends_example : Extends imported (run any_document (moving_it ∷ erasing_it ∷ []) imported)
run-Extends_example = run-Extends any_document (moving_it ∷ erasing_it ∷ []) imported

-- The stored key is the one that the stored fields give.
validation_key-fields_example :
    (fields first_revision session (codes "c") [] []
      ≡ fields first_revision session (codes "c") [] [])
    ⊎ Collision
        (frames (fields first_revision session (codes "c") [] []))
        (frames (fields first_revision session (codes "c") [] []))
unfolding perform import_file import_body authorship_checked field path_valid document_checked
    insert_object ingest ingest_reads take_read store_chunk place_chunk publish context raw_document
    revise_body move_body erase_body move erase require validate link_valid links_valid author_eq
    run chunks validation_key add_all add fields insert_revision insert_raw insert_parts
    parts_allowed update_head find update_rows get_session active_session bytes_eq to_string get
    join_object join_revision join_session Object.digest Object.update Object.finish Object.block
    Object.load_words Object.extend_words Object.rounds copy_at add32 rotr not32
validation_key-fields_example =
    validation_key-fields first_revision first_revision session session (codes "c") (codes "c") []
      [] [] [] first_revision.validation_key refl refl

abbrev imported_record : ObjectRecord
imported_record = result_of (perform any_document importing one_session).0

import_file-Imported_example : Imported (codes "k") (codes "a") two_bytes (
  imported_record,
  (import_file any_document 2 (codes "k") two_bytes (codes "a") (codes "s") options one_session).1,
)
unfolding perform import_file import_body authorship_checked field path_valid document_checked
    insert_object ingest ingest_reads take_read store_chunk place_chunk publish context raw_document
    revise_body move_body erase_body move erase require validate link_valid links_valid author_eq
    run chunks validation_key add_all add fields insert_revision insert_raw insert_parts
    parts_allowed update_head find update_rows get_session active_session bytes_eq to_string get
    join_object join_revision join_session Object.digest Object.update Object.finish Object.block
    Object.load_words Object.extend_words Object.rounds copy_at add32 rotr not32
import_file-Imported_example =
    import_file-Imported any_document 2 (codes "k") two_bytes (codes "a") (codes "s") options
      one_session imported_record (omega arith) refl

abbrev first_change : ObjectChange
first_change = record {
  offset = 0;
  before_hash = [];
  after_hash = part.hash;
  before_size = 0;
  after_size = 2;
}

diff-patch_example :
    (patch (first_change ∷ []) 0 no_chunk ≡ part) × (unpatch (first_change ∷ []) 0 part ≡ no_chunk)
unfolding diff changes_from perform import_file import_body authorship_checked field path_valid
    document_checked insert_object ingest ingest_reads take_read store_chunk place_chunk publish
    context raw_document revise_body move_body erase_body move erase require validate link_valid
    links_valid author_eq run chunks validation_key add_all add fields insert_revision insert_raw
    insert_parts parts_allowed update_head find update_rows get_session active_session bytes_eq
    to_string get join_object join_revision join_session Object.digest Object.update Object.finish
    Object.block Object.load_words Object.extend_words Object.rounds copy_at add32 rotr not32
diff-patch_example = diff-patch imported (codes "k") 1 (first_change ∷ []) refl 0
