-- ===== src/Lib.antt =====
-- The object packages of iiFileProvider, the two SHA-256 implementations they rest on, the
-- ledger of a file's authors, the index of a search over files, and the staged writing of files.
--
-- A package is a directory with one SQLite database. src/Objects/ObjectStore.cpp keeps in it, for
-- every object, a chain of immutable revisions: a revision names its parent by a validation key, a
-- SHA-256 over all its fields, and its content as a list of chunks that are stored once under
-- their own digest. A client reads and writes through ObjectStore; each call is one transaction
-- under a mutex, and a writer says which version it has seen.
--
-- Base: Boolean tests, lists on native numbers, results with `err` for a thrown exception, text.
-- Hash/Words: `std::uint32_t` as numbers below 2^32, with every `+` taken modulo 2^32; the tables.
-- Hash/Native: Native/src/Crypto/Sha256.cpp (`transform`, `update`, `digest`, `hexDigest`, `sha256`).
-- Hash/Object: src/Objects/ObjectHash.cpp (`block`, `update`, `finish`, `digest`), the branch
--   without __APPLE__; the other calls CommonCrypto.
-- Hash/Stream: what both promise, a stream of bytes compressed 64 at a time, and FIPS 180-4's
--   padding. Hash/Buffer: how an array of 64 bytes that keeps stale bytes implements it.
-- Hash/Native/Refines and Hash/Object/Refines: the two `update`s against the stream; Digest beside
--   them: whole messages; Hash/Agree: the one against the other.
-- Store/Tables: the structs of src/Objects/ObjectStore.h and the tables of the database, schema 5,
--   each a list of rows, newest first. The chunks of a revision are one row, their ordinals its
--   positions. `current_index` is a projection of the other tables and is left out.
-- Store/Checks: `field`, `metadataValid`, `authorValid`, `authorshipValid`, `pathValid`.
-- Store/Keys: `validationKey`. Store/Reads: `context`, `rawDocument`, `getSession`, `get`, `chunks`.
-- Store/Ingest: `storeChunk` and `ingest` of a path. Store/Publish: `publish`, with the keys, checks,
--   references and triggers of the schema as guards. Store/Validate: `validate`, `require`.
-- Store/Api: `importFile`, `reviseFile`, `move`, `erase`, `lookupPath`; `transaction` is `Transaction`
--   of src/Objects/ObjectSqlite_p.h, and `run` a sequence of calls of any clients in the order in
--   which the mutex lets them in.
-- Store/Diff: `diff`. Store/Framing: the text that a validation key hashes.
-- Store/Extends: which rows two states of the tables share; Store/History: readers of old revisions;
-- Store/ReadBack and Store/Appends: what a change publishes and appends; Store/Content: ingestion
--   against the loop of `extract`; Store/Parts and Store/Imports: what an import leaves.
--
-- A file carries a ledger of who changed it (Native/src/Core/Authorship.cpp): rows of authors under
-- a key that is a SHA-256, the links of the file, a revision, and a cached JSON text of it all.
--
-- Author/Calendar: the days and times of std::chrono that `timestamp` uses; a zone moves a point in
--   time by less than a day, and a year is stored plus one. Author/Time: `digits`, `timestampShape`,
--   `timestamp`; Canonical, Sound, Reread and Order beside it: what it prints.
-- Author/Uri/Escapes and Author/Unicode/Ends: what `validUri` takes, and what `scalars` reads.
-- Author/Unicode: `scalars`, `normalize`, `whitespace`, `clean`, over a record `Utf8proc` of the
--   functions of that library, which is a parameter. Author/Uri: `validUri`, `withoutUserInfo`, `origin`.
-- Author/Links: `FileLink::create`, `fromString`, `validatedLinks`. Author/Quote: the strings of
--   `rebuildDump`; Author/Quote/Reader: a reader of JSON strings to hold them against.
-- Author/Json: JSON values, a number standing as its text, `keys`, `text`, `dateValue`, `optionalDate`;
--   the record `JsonLibrary` holds the `parse`, `dump` and `operator==` of the vendored library, which are
--   parameters. Author/Locale: `validTimeZone`, whose time zone database and files are parameters (`Zones`
--   of Author/Details), and `detailLimits`. Author/Patterns: the regular expressions, over ASCII.
-- Author/Account, Author/Details and Author/Profile: `profile`, a function for each of its parts. Author/Snapshot: `fromJsonText`,
--   `fromIisaccAccount`, `displayLabel`, `firstEditor`, `participants`; Accounts, Built and Fields: what
--   holds of the author that is returned. Author/Json/Lookup: what is read of an object that has been changed.
-- Author/Ledger: `Authorship` with `rebuildDump` and `recordChange`; Changes: `setAuthor`, `setLinks`,
--   `setLinksFromStrings`. A throwing call leaves the ledger as it was, since the code changes a copy.
-- Author/Ledger/Reading: `fromDump`; Entries and FromDump beside it: the ledgers that it lets through.
-- Author/Ledger/Order: std::string's order; Valid: well-formed ledgers; Kept, Recorded, Setters, Histories, Later
--   and Rows: what a change, a call, a sequence of calls and `setAuthor` leave.
--
-- A search over files keeps a table of entries in memory (src/Catalog/FileSearchIndex.cpp).
-- Catalog/Match: `matchExpression`; Reader beside it: a reader of the FTS5 queries that it writes.
-- Catalog/Index: `upsert` with the rules of its ON CONFLICT clause and its `catch`, `contains`, `search`;
--   whether SQLite executes a statement, and what its queries return, are parameters. Index/Kept:
--   sequences of entries.
--
-- Files are read and written through Native/src/Core/File.cpp, modelled in the branch without _WIN32.
--
-- Files/World: what stands at each path, the answers that the system's calls are going to give, which
--   are arbitrary, the random parts of names, and the log of previews; an action is a function on
--   this world that returns or throws, and keeps what it has done when it throws. Two spellings of a
--   path are two paths, and each has a node of its own; whether two paths are names of one file is a
--   parameter that `publishFile` asks where it renames. Files/Paths: `checkedPath`, `parentOf`; the functions of std::filesystem that
--   need the current directory or follow links are the parameter `Paths`.
-- Files/Staged: `reserve`, `writeStaged`, `createDirectories`, StagedFile's constructor and destructor;
--   TemporaryLease is one call that leaves a sentinel. Files/Publish: `File::publish`. Files/Reads: ReadFile
--   and `File::read`. Files/Writes: `write`, `create`, `update`, `remove`, TemporaryDirectory's constructor.
-- Files/Commit: `publishFile` of Native/src/Filesystem/AtomicSave.cpp, and `checked` and `moveFile` of
--   Native/src/Filesystem/AtomicPublication.cpp in the branch for Linux.
-- Files/Save: `cancel`, `setPermissions` and `commit` of AtomicSave; what a client does with its device,
--   closing and opening it among that, is arbitrary, and its lease is left out. Files/Once: what a sequence of such calls reports.
-- Files/Outcomes: triples for actions; Files/Frame: what is kept in place; Files/Staging, Replace,
--   Overwrite, Exclusive, Content, Guarded, Progress, Probe, Committed, Publication and Transfer: the triples of the operations above.
--
-- SHA-256 of a message is, here and below, FIPS 180-4's padding compressed block by block with the
-- source's own compression function (`transform` or `block`) and printed in hexadecimal;
-- Hash/Tests computes FIPS 180-4's example with both.
--
-- Time and the random part of a new key are arguments. A source file is given by what the system
-- calls answer: its size and time before and after, and what each read delivers, with the answers
-- of the stop token between them. `validateDocument` asks SQLite's JSON functions, which stand for
-- the parameter `document_valid`; a refusal of theirs is one error. Sizes and versions are numbers
-- without a bound; the code's own checks against INT64_MAX and 2^61 - 1 are modelled.
-- `scalars_loop`, `escapes_allowed` and `match_loop` have the length of their text as fuel, since a
-- round takes a byte at least; `to_string` has one round more than its number.
-- `components_valid` has the length of the path as fuel, `whole_blocks` and `feed` the length of the
-- input: a round takes a byte at least. Other loops are recursion on their list.
--
-- Not modelled: `utcNow`, which reads a clock, failures of SQLite itself in ObjectStore and its 2 MiB limit on bound text but for RAW documents,
-- opening and migration, sessions' begin and end, batches, RAW wrapping and metadata, paged reads,
-- the handles and locks of SourceAccess, other processes that change files during a call,
-- the destructor of TemporaryDirectory, AtomicSave's `open` and `renameFileExclusive`, which open a
-- device. Of the other parts of the repository, the Qt library under src/Identity and src/Files repeats
-- the native one in Qt's types; the catalog, the ontology and the database binding are SQL statements;
-- the packager, the audit and the batch reads share work between threads; presentation, leases and
-- Compatibility are system calls and vendored code.
pub mod Author
pub mod Base
pub mod Hash
pub mod Store
pub mod Catalog
pub mod Files
