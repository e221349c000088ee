-- ===== src/Store/Appends.antt =====
-- ObjectStore::Impl::require and `publish` behind it: from one head to the next.
pub mod Calls
use ii_file_provider.Base.{
  ℕ, ◌+◌, ◌≡◌, refl, sym, ap, ◌∙◌, Bool, true, false, not, ◌&&◌, List, Option, none, some, Bytes,
  bytes_eq, bytes_eq_iff, ◌==◌, if◌then◌else◌, ltb, find, find-holds, arith, Result, ok, err, ◌>>=◌,
  guard, or_fail, or_fail-ok, OnOk, OnOk-after, OnOk-bind, OnOk-guard, OnOk-map, subst,
}
use ii_file_provider.Store.Tables.{
  Session, ObjectRecord, Chunk, ObjectRow, Store, Error, has_key, has_session, object_not_found,
  version_conflict, chain_corrupt, session_not_found, session_closed,
}
use ii_file_provider.Store.Reads.{get, get_session, active_session, int64_max}
use ii_file_provider.Store.Validate.{require, validate}
use ii_file_provider.Store.Publish.{publish}
use ii_file_provider.Store.Api.{WriteOptions, move_body, erase_body}
use ii_file_provider.Store.Extends.{Extends, Extends-refl}
use ii_file_provider.Store.History.{Found, get-Found, Found-key}
use ii_file_provider.Store.ReadBack.{Published, publish-Published, Published-get}

-- A live head at the version that the caller expects.
pub record Current (s : Store) (key : Bytes) (expected : ℕ) (r : ObjectRecord) : Type 0 where
  pub head : get s key 0 ≡ some r
  pub live : r.deleted ≡ false
  pub version : r.version ≡ expected

pub require-Current :
    (s : Store) (key : Bytes) (expected : ℕ)
    → OnOk (Current s key expected) (require s key expected)
unfolding require
require-Current s key expected = OnOk-after P (or_fail (get s key 0) object_not_found) _ λ r head.
    OnOk-guard P (not r.deleted) object_not_found _ λ live.
      OnOk-guard P (not (expected == 0) && r.version == expected && ltb expected int64_max)
        version_conflict _
        λ current. OnOk-after P (validate s key r.version false) _ λ valid _.
          OnOk-guard P valid chain_corrupt _ λ _. record {
            head = or_fail-ok (get s key 0) object_not_found r head;
            live = ground arith;
            version = ground arith;
          }
  where
    P : ObjectRecord → Type 0
    P = Current s key expected

-- The session that is asked for, found under its own key.
pub active_session-found :
    (s : Store) (key : Bytes)
    → OnOk (λ (w : Session). find (has_session w.key) s.sessions ≡ some w) (active_session s key)
unfolding active_session get_session
active_session-found s key =
    OnOk-after P (or_fail (find (has_session key) s.sessions) session_not_found) _ λ w found.
      OnOk-guard P (w.ended_at == 0) session_closed _ λ _.
        let row = or_fail-ok (find (has_session key) s.sessions) session_not_found w found in
        let same = (bytes_eq_iff w.key key).0 (find-holds (has_session key) s.sessions w row) in
        subst (λ k. find (has_session k) s.sessions ≡ some w) (sym same) row
  where
    P : Session → Type 0
    P w = find (has_session w.key) s.sessions ≡ some w

-- The revision `next` follows `r` in the chain of the same object.
pub record Follows (r next : ObjectRecord) : Type 0 where
  pub key : next.key ≡ r.key
  pub index_key : next.index_key ≡ r.index_key
  pub version : next.version ≡ r.version + 1
  pub parent_key : next.parent_key ≡ r.validation_key

-- What has happened when a call on the object returns a record: this record follows the head that
-- the call expected, is the new head, and is read as its version.
pub record Appended (s : Store) (key : Bytes) (expected : ℕ) (p : ObjectRecord × Store)
    : Type 0 where
  pub before : ObjectRecord
  pub current : Current s key expected before
  pub follows : Follows before p.0
  pub head : get p.1 key 0 ≡ some p.0
  pub own_version : get p.1 key (expected + 1) ≡ some p.0

module _ (s : Store) (key : Bytes) (expected : ℕ) (r : ObjectRecord)
    (c : Current s key expected r) where
  pub publish-Appended :
      (now : ℕ) (next : ObjectRecord) (session : Session) (parts : List Chunk) (raw : Option Bytes)
      (s' : Store)
      → Extends s s'
      → find (has_session session.key) s.sessions ≡ some session
      → Follows r next
      → OnOk (Appended s key expected) (publish now next session parts raw s')
  publish-Appended now next session parts raw s' x session_found f =
      OnOk-map (Published now next session s' o') (Appended s key expected)
        (publish now next session parts raw s') appended
        (publish-Published now next session s' o' parts raw (rw next_key found'))
    where
      before : Found s key 0 r
      before = get-Found s key 0 r c.head

      row :
          (o : ObjectRow) × (find (has_key key) s'.objects ≡ some o)
          × (o.index_key ≡ before.object.index_key)
      row = x.objects key before.object before.object_found

      o' : ObjectRow
      o' = row.0

      found' : find (has_key key) s'.objects ≡ some o'
      found' = row.1

      next_key : next.key ≡ key
      next_key = f.key ∙ Found-key s key 0 r before

      same_index : o'.index_key ≡ next.index_key
      same_index = row.2 ∙ sym (f.index_key ∙ ap (λ y. y.index_key) before.result)

      next_version : next.version ≡ expected + 1
      next_version = f.version ∙ ap (λ v. v + 1) c.version

      same_either : (b : Bool) → (if b then next.version else next.version) ≡ next.version
      same_either true = refl
      same_either false = refl

      appended :
          (p : ObjectRecord × Store)
          → Published now next session s' o' p
          → Appended s key expected p
      appended p y = record {
        before = r;
        current = c;
        follows = record {
          key = ap (λ z. z.key) y.result ∙ f.key;
          index_key = ap (λ z. z.index_key) y.result ∙ f.index_key;
          version = ap (λ z. z.version) y.result ∙ f.version;
          parent_key = ap (λ z. z.parent_key) y.result ∙ f.parent_key;
        };
        head = rw (← next_key) (
            Published-get now next session s' o' p 0 refl same_index (rw x.sessions session_found)
              y);
        own_version =
            rw (← next_key, ← next_version)
              (Published-get now next session s' o' p next.version (same_either (next.version == 0))
                same_index (rw x.sessions session_found) y);
      }
