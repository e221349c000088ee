-- ===== src/Hash/Native/Digest.antt =====
-- The digest of a message, in one call and in pieces.
use ii_file_provider.Base.{
  ◌+◌, ◌*◌, ◌%◌, ◌^◌, ◌≤◌, ◌<◌, ◌≡◌, refl, sym, ap, ◌∙◌, List, [], ◌∷◌, ◌++◌, Bytes, arith, length,
  length-append, Result, ok, err, ◌>>=◌, append_assoc, append-nil, flatten,
}
use ii_file_provider.Hash.Buffer.{absorb-closed}
use ii_file_provider.Hash.Stream.{absorb, absorb-append, hash_state, padding, big_endian}
use ii_file_provider.Hash.Words.{initial_state, words_of}
use ii_file_provider.Hash.Native.{
  Sha256, Error, initial, maximum_bytes, transform, update, finalize, flat_bytes, hex, hex_digest,
  sha256,
}
use ii_file_provider.Hash.Native.Refines.{IsValid, absorbed, Absorbs, update-Absorbs}

-- `h` has taken `message` in.
pub record Took (message : Bytes) (h : Sha256) : Type 0 where
  pub valid : IsValid h
  pub same : absorbed h ≡ absorb transform (record { state = initial_state; tail = [] }) message
  pub counted : h.bytes ≡ length message

pub initial-Took : Took [] initial
unfolding absorb
initial-Took = record {
  valid = record { full = refl; room = omega arith; counted = omega arith; aligned = refl };
  same = refl;
  counted = refl;
}

pub finalize-hash_state :
    (message : Bytes) (h : Sha256)
    → Took message h
    → finalize h ≡ hash_state transform initial_state message
unfolding finalize hash_state
finalize-hash_state message h t =
    let n = length message in
    let bits : h.bytes * 8 % 2 ^ 64 ≡ n * 8 = omega (arith, t.counted, t.valid.counted) in
    let waiting : h.pending_size ≡ n % 64 = omega (arith, t.counted, t.valid.aligned) in
    let padded : absorb transform (absorbed h) (padding n)
        ≡ record { state = finalize h; tail = [] } =
      rw (← waiting, ← bits)
        (absorb-closed transform h.state h.pending h.pending_size
          (big_endian 8 (h.bytes * 8 % 2 ^ 64)) t.valid.full t.valid.room refl) in
    sym (
      ap (λ s. s.state)
        (absorb-append transform _ message (padding n)
          ∙ ap (λ s. absorb transform s (padding n)) (sym t.same)
          ∙ padded))

Absorbs-Took :
    (message input : Bytes) (h : Sha256) (r : Result Error Sha256)
    → Took message h
    → length message + length input ≤ maximum_bytes
    → Absorbs h input r
    → (h' : Sha256) × (r ≡ ok h') × Took (message ++ input) h'
Absorbs-Took message input h (ok h') t fits a = (
  h',
  refl,
  record {
    valid = a.1;
    same =
        a.2
        ∙ ap (λ s. absorb transform s input) t.same
        ∙ sym (absorb-append transform _ message input);
    counted = omega (arith, a.3, t.counted, length-append message input);
  },
)
Absorbs-Took message input h (err e) t fits a = absurd (omega (arith, a, t.counted))

pub update-Took :
    (message input : Bytes) (h : Sha256)
    → Took message h
    → length message + length input ≤ maximum_bytes
    → (h' : Sha256) × (update h input ≡ ok h') × Took (message ++ input) h'
update-Took message input h t fits =
    Absorbs-Took message input h (update h input) t fits (update-Absorbs h input t.valid)

-- A caller's sequence of `update` calls.
unfoldable pub update_all : Sha256 → List Bytes → Result Error Sha256
update_all h [] = ok h
update_all h (piece ∷ pieces) = do h' ← update h piece; update_all h' pieces

update_all-Took :
    (pieces : List Bytes) (message : Bytes) (h : Sha256)
    → Took message h
    → length message + length (flatten pieces) ≤ maximum_bytes
    → (h' : Sha256) × (update_all h pieces ≡ ok h') × Took (message ++ flatten pieces) h'
unfolding update_all
update_all-Took [] message h t fits = (h, refl, rw append-nil t)
update_all-Took (piece ∷ pieces) message h t fits =
    let whole = length-append piece (flatten pieces) in
    let (h', e, t') = update-Took message piece h t (omega (arith, whole)) in
    let (last, e', t'') =
      update_all-Took pieces (message ++ piece) h' t'
        (omega (arith, whole, length-append message piece)) in
    (last, rw e e', rw (← append_assoc) t'')

-- The printed digest of a message.
abbrev pub standard_hex : Bytes → Bytes
standard_hex message = hex (flat_bytes (words_of (hash_state transform initial_state message)))

-- Whatever pieces a message of at most 2^61 - 1 bytes is handed over in, every `update` succeeds,
-- and `hexDigest` prints the FIPS 180-4 hash of the whole message: the message with its padding,
-- compressed block by block from the initial words by the source's `transform`.
pub hex_digest-update_all :
    (pieces : List Bytes)
    → length (flatten pieces) ≤ maximum_bytes
    → (h : Sha256) × (update_all initial pieces ≡ ok h)
      × (hex_digest h ≡ standard_hex (flatten pieces))
unfolding hex_digest
hex_digest-update_all pieces fits =
    let (h, e, t) = update_all-Took pieces [] initial initial-Took (omega arith) in
    (h, e, ap (λ s. hex (flat_bytes (words_of s))) (finalize-hash_state (flatten pieces) h t))

-- What `sha256` may return.
abbrev pub Prints : Bytes → Result Error Bytes → Type 0
Prints message (ok text) = (length message ≤ maximum_bytes) × (text ≡ standard_hex message)
Prints message (err e) = maximum_bytes < length message

Absorbs-Prints :
    (message : Bytes) (r : Result Error Sha256)
    → Absorbs initial message r
    → Prints message (r >>= λ h. ok (hex_digest h))
unfolding hex_digest
Absorbs-Prints message (ok h) a =
    let fits : length message ≤ maximum_bytes = omega (arith, a.0) in
    let (h', e, t) = Absorbs-Took [] message initial (ok h) initial-Took (omega arith) a in
    let same : h' ≡ h = ground (arith, e) in
    (fits, ap (λ s. hex (flat_bytes (words_of s))) (finalize-hash_state message h (rw same at t)))
Absorbs-Prints message (err e) a = omega (arith, a)

-- `sha256` prints the hash of every message of at most 2^61 - 1 bytes, and throws for any longer.
pub sha256-Prints : (message : Bytes) → Prints message (sha256 message)
unfolding sha256
sha256-Prints message =
    Absorbs-Prints message (update initial message)
      (update-Absorbs initial message initial-Took.valid)
