-- ===== src/Store/Reads.antt =====
-- ObjectStore::Impl: the queries over the tables (context, rawDocument, getSession, get, chunks).
use ii_file_provider.Base.{
  ℕ, ◌-◌, ◌*◌, ◌^◌, List, [], Option, none, some, Bytes, ◌==◌, if◌then◌else◌, Result, ok, err,
  ◌>>=◌, ◌>>◌, guard, or_fail, find,
}
use ii_file_provider.Store.Tables.{
  Session, ObjectRecord, Chunk, ObjectRow, Revision, PartsRow, RawRow, ContextRow, Store, Error,
  session_not_found, session_closed, context_missing, has_key, at_version, has_session, parts_at,
  raw_at, context_of,
}

abbrev pub chunk_bytes : ℕ
chunk_bytes = 1024 * 1024

abbrev pub int64_max : ℕ
int64_max = 2 ^ 63 - 1

abbrev pub text_of : Option ContextRow → Result Error Bytes
text_of none = err context_missing
text_of (some row) = ok row.context

-- Impl::context.
unfoldable pub context : Store → Bytes → Result Error Bytes
context s key = text_of (find (context_of key) s.contexts)

abbrev document_of : Option RawRow → Bytes
document_of none = []
document_of (some row) = row.document

-- Impl::rawDocument.
unfoldable pub raw_document : Store → Bytes → ℕ → Bytes
raw_document s key version = document_of (find (raw_at key version) s.raw_revisions)

-- Impl::getSession with the default `active=false`.
unfoldable pub get_session : Store → Bytes → Result Error Session
get_session s key = or_fail (find (has_session key) s.sessions) session_not_found

-- Impl::getSession(key, true).
unfoldable pub active_session : Store → Bytes → Result Error Session
active_session s key = do
  session ← get_session s key
  guard (session.ended_at == 0) session_closed
  ok session

-- `record(Query&)` over the join of revisions, objects and sessions.
abbrev pub joined : ObjectRow → Session → Revision → ObjectRecord
joined o s r = record {
  key = r.key;
  index_key = o.index_key;
  version = r.version;
  path = r.path;
  sha256 = r.sha256;
  size = r.size;
  author = record {
    origin = r.author_origin;
    subject = r.author_subject;
    display_name = r.author_name;
    profile = s.author.profile;
  };
  session_key = r.session_key;
  recorded_at = r.at_ns;
  operation = r.operation;
  deleted = r.deleted;
  parent_key = r.parent_key;
  validation_key = r.validation_key;
  authorship = r.metadata;
  source_stamp = r.source_stamp;
  schema_version = r.record_format;
}

unfoldable pub join_session : ObjectRow → Revision → Option Session → Option ObjectRecord
join_session o r none = none
join_session o r (some s) = some (joined o s r)

unfoldable pub join_revision : Store → ObjectRow → Option Revision → Option ObjectRecord
join_revision s o none = none
join_revision s o (some r) = join_session o r (find (has_session r.session_key) s.sessions)

unfoldable pub join_object : Store → Bytes → ℕ → Option ObjectRow → Option ObjectRecord
join_object s key version none = none
join_object s key version (some o) =
    let wanted = if version == 0 then o.head else version in
    join_revision s o (find (at_version key wanted) s.revisions)

-- Impl::get; version 0 asks for the head.
unfoldable pub get : Store → Bytes → ℕ → Option ObjectRecord
get s key version = join_object s key version (find (has_key key) s.objects)

abbrev parts_of : Option PartsRow → List Chunk
parts_of none = []
parts_of (some row) = row.parts

-- Impl::chunks.
unfoldable pub chunks : Store → Bytes → ℕ → List Chunk
chunks s key version = parts_of (find (parts_at key version) s.revision_chunks)
