-- ===== src/Author/Snapshot/Built.antt =====
-- The JSON value that `profile` of Native/src/Core/Authorship.cpp builds.
use ii_file_provider.Base.{◌≡◌, refl, ◌∙◌, false, some, Bytes, bytes_eq, ok, codes}
use ii_file_provider.Author.Unicode.{Utf8proc}
use ii_file_provider.Author.Time.{timestamp}
use ii_file_provider.Author.Uri.{origin}
use ii_file_provider.Author.Json.{Json, string, value_at, with_member}
use ii_file_provider.Author.Json.Lookup.{
  IsObject, with_member-IsObject, value_at-with_member, value_at-with_member_other,
}
use ii_file_provider.Author.Snapshot.Accounts.{IsAccount}

pub record HasAccount (u : Utf8proc) (value : Json) : Type 0 where
  pub service : Bytes
  pub stamp : Bytes
  pub account : Json
  pub account_at : value_at value (codes "account") ≡ some account
  pub service_at : value_at value (codes "serviceOrigin") ≡ some (string service)
  pub stamp_at : value_at value (codes "capturedAt") ≡ some (string stamp)
  pub is_account : IsAccount service account
  pub served : (url : Bytes) × (origin u url ≡ ok service)
  pub captured : (given : Bytes) × (timestamp given ≡ ok stamp)

-- What stands in a value behind its last three members.
behind_account :
    (value details attribution device : Json) (name : Bytes)
    → bytes_eq (codes "details") name ≡ false
    → bytes_eq (codes "attribution") name ≡ false
    → bytes_eq (codes "device") name ≡ false
    → value_at
        (with_member
          (with_member
            (with_member value (codes "details") details)
            (codes "attribution")
            attribution)
          (codes "device")
          device)
        name
      ≡ value_at value name
behind_account value details attribution device name d a v =
    let detailed = with_member value (codes "details") details in
    value_at-with_member_other (with_member detailed (codes "attribution") attribution)
      (codes "device") device name v
    ∙ value_at-with_member_other detailed (codes "attribution") attribution name a
    ∙ value_at-with_member_other value (codes "details") details name d

module _ (u : Utf8proc) where
  -- The value that `profile` builds of the one it was given.
  pub built-HasAccount :
      (value account details attribution device : Json) (service stamp : Bytes)
      → IsObject value
      → IsAccount service account
      → (url : Bytes) × (origin u url ≡ ok service)
      → (given : Bytes) × (timestamp given ≡ ok stamp)
      → HasAccount u (
          with_member
            (with_member
              (with_member
                (with_member
                  (with_member
                    (with_member value (codes "serviceOrigin") (string service))
                    (codes "capturedAt")
                    (string stamp))
                  (codes "account")
                  account)
                (codes "details")
                details)
              (codes "attribution")
              attribution)
            (codes "device")
            device)
  unfolding bytes_eq
  built-HasAccount value account details attribution device service stamp is a served captured =
      let origin_put = with_member value (codes "serviceOrigin") (string service) in
      let stamp_put = with_member origin_put (codes "capturedAt") (string stamp) in
      let account_put = with_member stamp_put (codes "account") account in
      let origin_is = with_member-IsObject (codes "serviceOrigin") (string service) is in
      let stamp_is = with_member-IsObject (codes "capturedAt") (string stamp) origin_is in
      record {
        service = service;
        stamp = stamp;
        account = account;
        account_at =
            behind_account account_put details attribution device (codes "account") refl refl refl
            ∙ value_at-with_member (codes "account") account stamp_is;
        service_at =
            behind_account account_put details attribution device (codes "serviceOrigin") refl refl
              refl
            ∙ value_at-with_member_other stamp_put (codes "account") account (codes "serviceOrigin")
                refl
            ∙ value_at-with_member_other origin_put (codes "capturedAt") (string stamp)
                (codes "serviceOrigin") refl
            ∙ value_at-with_member (codes "serviceOrigin") (string service) is;
        stamp_at =
            behind_account account_put details attribution device (codes "capturedAt") refl refl
              refl
            ∙ value_at-with_member_other stamp_put (codes "account") account (codes "capturedAt")
                refl
            ∙ value_at-with_member (codes "capturedAt") (string stamp) origin_is;
        is_account = a;
        served = served;
        captured = captured;
      }
