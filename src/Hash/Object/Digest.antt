-- ===== src/Hash/Object/Digest.antt =====
-- The digest of a message, in one call and in pieces.
use ii_file_provider.Base.{
  ℕ, ◌+◌, ◌-◌, ◌*◌, ◌/◌, ◌%◌, ◌^◌, ◌≤◌, ◌<◌, ◌≡◌, refl, sym, ap, ◌∙◌, List, [], ◌∷◌, ◌++◌, Bytes,
  arith, length, length-append, Result, ok, err, ◌>>=◌, append_assoc, append-nil, flatten, zero,
  suc, All, All-append,
}
use ii_file_provider.Hash.Buffer.{absorb-closed}
use ii_file_provider.Hash.Stream.{absorb, absorb-append, hash_state, padding, big_endian}
use ii_file_provider.Hash.Words.{initial_state, words_of, IsHexDigit, hex_digit-IsHexDigit}
use ii_file_provider.Hash.Object.{
  ObjectHash, Error, initial, block, update, finalize, hex, nibbles, finish, digest,
}
use ii_file_provider.Hash.Object.Refines.{IsValid, absorbed, Absorbs, object_update-Absorbs}

abbrev pub maximum_bytes : ℕ
maximum_bytes = (2 ^ 64 - 1) / 8

-- `h` has taken `message` in.
pub record Took (message : Bytes) (h : ObjectHash) : Type 0 where
  pub valid : IsValid h
  pub same : absorbed h ≡ absorb block (record { state = initial_state; tail = [] }) message
  pub counted : h.total ≡ length message

pub initial-Took : Took [] initial
unfolding absorb
initial-Took = record {
  valid = record { full = refl; room = omega arith; counted = omega arith; aligned = refl };
  same = refl;
  counted = refl;
}

pub finalize-hash_state :
    (message : Bytes) (h : ObjectHash)
    → Took message h
    → finalize h ≡ hash_state block initial_state message
unfolding finalize hash_state
finalize-hash_state message h t =
    let n = length message in
    let bits : h.total * 8 % 2 ^ 64 ≡ n * 8 = omega (arith, t.counted, t.valid.counted) in
    let waiting : h.used ≡ n % 64 = omega (arith, t.counted, t.valid.aligned) in
    let padded : absorb block (absorbed h) (padding n) ≡ record { state = finalize h; tail = [] } =
      rw (← waiting, ← bits)
        (absorb-closed block h.state h.pending h.used (big_endian 8 (h.total * 8 % 2 ^ 64))
          t.valid.full t.valid.room refl) in
    sym (
      ap (λ s. s.state)
        (absorb-append block _ message (padding n)
          ∙ ap (λ s. absorb block s (padding n)) (sym t.same)
          ∙ padded))

pub Absorbs-Took :
    (message input : Bytes) (h : ObjectHash) (r : Result Error ObjectHash)
    → Took message h
    → length message + length input ≤ maximum_bytes
    → Absorbs h input r
    → (h' : ObjectHash) × (r ≡ ok h') × Took (message ++ input) h'
Absorbs-Took message input h (ok h') t fits a = (
  h',
  refl,
  record {
    valid = a.1;
    same = a.2 ∙ ap (λ s. absorb block s input) t.same ∙ sym (absorb-append block _ message input);
    counted = omega (arith, a.3, t.counted, length-append message input);
  },
)
Absorbs-Took message input h (err e) t fits a = absurd (omega (arith, a, t.counted))

-- A caller's sequence of `update` calls, such as `validationKey`'s.
unfoldable pub update_all : ObjectHash → List Bytes → Result Error ObjectHash
update_all h [] = ok h
update_all h (piece ∷ pieces) = do h' ← update h piece; update_all h' pieces

update_all-Took :
    (pieces : List Bytes) (message : Bytes) (h : ObjectHash)
    → Took message h
    → length message + length (flatten pieces) ≤ maximum_bytes
    → (h' : ObjectHash) × (update_all h pieces ≡ ok h') × Took (message ++ flatten pieces) h'
unfolding update_all
update_all-Took [] message h t fits = (h, refl, rw append-nil t)
update_all-Took (piece ∷ pieces) message h t fits =
    let whole = length-append piece (flatten pieces) in
    let (h', e, t') =
      Absorbs-Took message piece h (update h piece) t (omega (arith, whole))
        (object_update-Absorbs h piece t.valid) in
    let (last, e', t'') =
      update_all-Took pieces (message ++ piece) h' t'
        (omega (arith, whole, length-append message piece)) in
    (last, rw e e', rw (← append_assoc) t'')

abbrev pub standard_hex : Bytes → Bytes
standard_hex message = hex (words_of (hash_state block initial_state message))

-- Whatever pieces a message of at most 2^61 - 1 bytes is handed over in, every `update` succeeds,
-- and `finish` prints the hash of the whole message.
pub finish-update_all :
    (pieces : List Bytes)
    → length (flatten pieces) ≤ maximum_bytes
    → (h : ObjectHash) × (update_all initial pieces ≡ ok h)
      × (finish h ≡ standard_hex (flatten pieces))
unfolding finish
finish-update_all pieces fits =
    let (h, e, t) = update_all-Took pieces [] initial initial-Took (omega arith) in
    (h, e, ap (λ s. hex (words_of s)) (finalize-hash_state (flatten pieces) h t))

-- What `digest` may return.
abbrev pub Prints : Bytes → Result Error Bytes → Type 0
Prints message (ok text) = (length message ≤ maximum_bytes) × (text ≡ standard_hex message)
Prints message (err e) = maximum_bytes < length message

Absorbs-Prints :
    (message : Bytes) (r : Result Error ObjectHash)
    → Absorbs initial message r
    → Prints message (r >>= λ h. ok (finish h))
unfolding finish
Absorbs-Prints message (ok h) a =
    let fits : length message ≤ maximum_bytes = omega (arith, a.0) in
    let (h', e, t) = Absorbs-Took [] message initial (ok h) initial-Took (omega arith) a in
    let same : h' ≡ h = ground (arith, e) in
    (fits, ap (λ s. hex (words_of s)) (finalize-hash_state message h (rw same at t)))
Absorbs-Prints message (err e) a = omega (arith, a)

-- `digest` prints the hash of every message of at most 2^61 - 1 bytes, and throws for any longer.
pub digest-Prints : (message : Bytes) → Prints message (digest message)
unfolding digest
digest-Prints message =
    Absorbs-Prints message (update initial message)
      (object_update-Absorbs initial message initial-Took.valid)

nibbles-IsHexDigit : (n word : ℕ) → All IsHexDigit (nibbles n word)
unfolding nibbles
nibbles-IsHexDigit zero word = tt
nibbles-IsHexDigit (suc n) word =
    (hex_digit-IsHexDigit (word / 2 ^ (4 * n) % 16) (omega arith), nibbles-IsHexDigit n word)

hex-IsHexDigit : (ws : List ℕ) → All IsHexDigit (hex ws)
unfolding hex
hex-IsHexDigit [] = tt
hex-IsHexDigit (w ∷ ws) =
    All-append IsHexDigit (nibbles 8 w) (hex ws) (nibbles-IsHexDigit 8 w) (hex-IsHexDigit ws)

-- `finish` prints 64 lower-case hexadecimal digits, whatever the state.
pub finish-IsHexDigit : (h : ObjectHash) → (length (finish h) ≡ 64) × All IsHexDigit (finish h)
unfolding finish
finish-IsHexDigit h = ((unfold hex nibbles in refl), hex-IsHexDigit (words_of (finalize h)))
