-- ===== src/Author/Json/Lookup.antt =====
-- What is read of a JSON object behind `value[name] = item` (Native/src/Core/Authorship.cpp).
use ii_file_provider.Base.{
  ◌≡◌, refl, sym, subst, ap, ◌∙◌, Bool, true, false, List, some, Bytes, bytes_eq, bytes_eq_iff,
  bytes_eq_refl, if◌then◌else◌, ok, ok-inj, or_fail-ok,
}
use ii_file_provider.Base.Search.{bytes_ltb}
use ii_file_provider.Author.Errors.{invalid_argument}
use ii_file_provider.Author.Json.{
  Json, Members, null, boolean, number, string, array, object, end, member_of, find_member,
  value_at, set_member, with_member, keys, member_at, as_string,
}

-- A found value is that of the first member with the name.
module _ (value item : Json) (rest behind : Members) (key name : Bytes) where
  kept_member :
      (same before : Bool) (other : Bytes)
      → (same ≡ true → bytes_eq key other ≡ false)
      → bytes_eq name other ≡ false
      → find_member behind other ≡ find_member rest other
      → find_member
          (if same
            then member_of name item rest
            else if before
            then member_of name item (member_of key value rest)
            else member_of key value behind)
          other
        ≡ find_member (member_of key value rest) other
  unfolding find_member
  kept_member true before other same differ h = rw (same refl, differ)
  kept_member false true other same differ h = rw differ
  kept_member false false other same differ h = rw h

  put_member :
      (same before : Bool)
      → bytes_eq key name ≡ same
      → find_member behind name ≡ some item
      → find_member
          (if same
            then member_of name item rest
            else if before
            then member_of name item (member_of key value rest)
            else member_of key value behind)
          name
        ≡ some item
  unfolding find_member
  put_member true before same h = rw (bytes_eq_refl name)
  put_member false true same h = rw (bytes_eq_refl name)
  put_member false false same h = rw (same, h)

find_member-set_member_other :
    (members : Members) (name : Bytes) (item : Json) (other : Bytes)
    → bytes_eq name other ≡ false
    → find_member (set_member members name item) other ≡ find_member members other
unfolding find_member set_member
find_member-set_member_other end name item other differ = rw differ
find_member-set_member_other (member_of key value rest) name item other differ =
    kept_member value item rest (set_member rest name item) key name (bytes_eq key name)
      (bytes_ltb name key) other
      (λ e. subst (λ k. bytes_eq k other ≡ false) (sym ((bytes_eq_iff key name).0 e)) differ) differ
      (find_member-set_member_other rest name item other differ)

find_member-set_member :
    (members : Members) (name : Bytes) (item : Json)
    → find_member (set_member members name item) name ≡ some item
unfolding find_member set_member
find_member-set_member end name item = rw (bytes_eq_refl name)
find_member-set_member (member_of key value rest) name item =
    put_member value item rest (set_member rest name item) key name (bytes_eq key name)
      (bytes_ltb name key) refl (find_member-set_member rest name item)

-- A value that `keys` takes is an object.
pub data IsObject : Json → Type 0 where
  is_object : (members : Members) → IsObject (object members)

pub keys-IsObject :
    (value : Json) (allowed : List Bytes) → keys value allowed ≡ ok tt → IsObject value
unfolding keys
keys-IsObject (object members) allowed e = is_object members
keys-IsObject null allowed e = cc
keys-IsObject (boolean b) allowed e = cc
keys-IsObject (number n) allowed e = cc
keys-IsObject (string s) allowed e = cc
keys-IsObject (array items) allowed e = cc

pub with_member-IsObject :
    {value : Json} (name : Bytes) (item : Json)
    → IsObject value
    → IsObject (with_member value name item)
with_member-IsObject name item (is_object members) = is_object (set_member members name item)

pub value_at-with_member :
    {value : Json} (name : Bytes) (item : Json)
    → IsObject value
    → value_at (with_member value name item) name ≡ some item
value_at-with_member name item (is_object members) = find_member-set_member members name item

pub value_at-with_member_other :
    (value : Json) (name : Bytes) (item : Json) (other : Bytes)
    → bytes_eq name other ≡ false
    → value_at (with_member value name item) other ≡ value_at value other
value_at-with_member_other (object members) name item other differ =
    find_member-set_member_other members name item other differ
value_at-with_member_other null name item other differ = refl
value_at-with_member_other (boolean b) name item other differ = refl
value_at-with_member_other (number n) name item other differ = refl
value_at-with_member_other (string s) name item other differ = refl
value_at-with_member_other (array items) name item other differ = refl

-- What `value.at(name)` returns is what stands there.
pub member_at-value_at :
    (value : Json) (name : Bytes) (item found : Json)
    → value_at value name ≡ some item
    → member_at value name ≡ ok found
    → item ≡ found
member_at-value_at value name item found there e =
    inside (sym there ∙ or_fail-ok (value_at value name) invalid_argument found e)
  where
    inside : {a b : Json} → some a ≡ some b → a ≡ b
    inside e = cc

pub as_string-string :
    {item : Json} {s found : Bytes} → string s ≡ item → as_string item ≡ ok found → s ≡ found
as_string-string e f = ok-inj (ap as_string e ∙ f)
