-- ===== src/Hash/Tests.antt =====
-- FIPS 180-4's example "abc", through both implementations.
use Prim.Native.Char.{code}
use Prim.Native.String.{String}
use ii_file_provider.Base.{◌≡◌, refl, List, [], ◌∷◌, Bytes, ok, length, All, arith}
use ii_file_provider.Hash.Native
use ii_file_provider.Hash.Object
use ii_file_provider.Hash.Native.Digest as NativeDigest
use ii_file_provider.Hash.Native.Refines as NativeRefines
use ii_file_provider.Hash.Object.Digest as ObjectDigest
use ii_file_provider.Hash.Object.Refines as ObjectRefines
use ii_file_provider.Hash.Agree.{SameOutcome, sha256-digest}
use ii_file_provider.Hash.Words.{IsHexDigit, add32, rotr, not32}
use ii_file_provider.Hash.Buffer.{copy_at}

abbrev codes : String → Bytes
codes String.[] = []
codes (String.◌∷◌ c s) = code c ∷ codes s

abbrev abc_digest : Bytes
abc_digest = codes "ba7816bf8f01cfea414140de5dae2223b00361a396177a9cb410ff61f20015ad"

native_abc : Native.sha256 (codes "abc") ≡ ok abc_digest
unfolding Native.sha256 Native.transform Native.load_words Native.extend_words Native.rounds copy_at
    add32 rotr not32
native_abc = refl

object_abc : Object.digest (codes "abc") ≡ ok abc_digest
unfolding Object.digest Object.block Object.load_words Object.extend_words Object.rounds copy_at
    add32 rotr not32
object_abc = refl

abbrev abc_pieces : List Bytes
abc_pieces = codes "a" ∷ codes "" ∷ codes "bc" ∷ []

sha256-digest_example : SameOutcome (Native.sha256 (codes "abc")) (Object.digest (codes "abc"))
sha256-digest_example = sha256-digest (codes "abc")

hex_digest-update_all_example :
    (h : Native.Sha256) × (NativeDigest.update_all Native.initial abc_pieces ≡ ok h)
    × (Native.hex_digest h ≡ NativeDigest.standard_hex (codes "abc"))
hex_digest-update_all_example = NativeDigest.hex_digest-update_all abc_pieces (omega arith)

finish-update_all_example :
    (h : Object.ObjectHash) × (ObjectDigest.update_all Object.initial abc_pieces ≡ ok h)
    × (Object.finish h ≡ ObjectDigest.standard_hex (codes "abc"))
finish-update_all_example = ObjectDigest.finish-update_all abc_pieces (omega arith)

sha256-Prints_example : NativeDigest.Prints (codes "abc") (Native.sha256 (codes "abc"))
sha256-Prints_example = NativeDigest.sha256-Prints (codes "abc")

update-Absorbs_example :
    NativeRefines.Absorbs Native.initial (codes "abc") (Native.update Native.initial (codes "abc"))
update-Absorbs_example =
    NativeRefines.update-Absorbs Native.initial (codes "abc") NativeDigest.initial-Took.valid

object_update-Absorbs_example :
    ObjectRefines.Absorbs Object.initial (codes "abc") (Object.update Object.initial (codes "abc"))
object_update-Absorbs_example =
    ObjectRefines.object_update-Absorbs Object.initial (codes "abc") ObjectDigest.initial-Took.valid

finish-IsHexDigit_example :
    (length (Object.finish Object.initial) ≡ 64) × All IsHexDigit (Object.finish Object.initial)
finish-IsHexDigit_example = ObjectDigest.finish-IsHexDigit Object.initial
