-- ===== src/AddressBookSync/Signature.antt =====
-- How the updates of src/xmpp_p2p_chat/connection_service/addressbook_sync.py are signed, and how the
-- signature and the time of one are checked.
pub use serverless_xmpp.Config.{AddressBookSyncConfig}
use serverless_xmpp.Base.{
  ℕ, String, is_ascii, Bool, false, Option, none, some, ◌==◌, if◌then◌else◌, truthy, leb,
}
use serverless_xmpp.Base.Outcome.{Result, ok, err, value_error, type_error, attribute_error}
use serverless_xmpp.Models.JsonData
use serverless_xmpp.Models.JsonData.{
  Json, null, int, bool, number, Items, nil, cons, Fields, end, field, str, arr, obj,
}
use serverless_xmpp.AddressBookHash.{insert_field}

-- `mac` is the HMAC-SHA256 of a dict that is printed as JSON, by the key, in base64; `text_of` is
-- `str(v)`, and `skew` the seconds between now and a time in ISO format, rounded up.
pub record SyncPlatform : Type 0 where
  pub mac : String → Fields → String
  pub text_of : Json → String
  pub skew : String → Option ℕ

-- `sort_keys=True` sorts the keys at every depth.
unfoldable mutual
  pub sorted_value : Json → Json
  sorted_value (obj d) = obj (sorted_fields d)
  sorted_value (arr l) = arr (sorted_items l)
  sorted_value v = v

  pub sorted_items : Items → Items
  sorted_items nil = nil
  sorted_items (cons v l) = cons (sorted_value v) (sorted_items l)

  pub sorted_fields : Fields → Fields
  sorted_fields end = end
  sorted_fields (field k v d) = insert_field k (sorted_value v) (sorted_fields d)

module _ (sp : SyncPlatform) where
  unfoldable pub signature_of : String → Fields → String
  signature_of secret payload = sp.mac secret (sorted_fields (JsonData.without "signature" payload))

  unfoldable pub sign_payload : AddressBookSyncConfig → Fields → Result String
  unfolding signature_of
  sign_payload c payload =
      if truthy c.secret then ok (signature_of c.secret payload) else err value_error

  -- `compare_digest` takes two texts only if they are ASCII.
  unfoldable pub compare_signature : String → Json → Result Bool
  compare_signature expected (str signature) =
      if is_ascii signature then ok (expected == signature) else err type_error
  compare_signature expected _ = err type_error

  unfoldable pub verify_payload : AddressBookSyncConfig → Fields → Result Bool
  unfolding compare_signature signature_of
  verify_payload c payload =
      if truthy c.secret
      then (elim (JsonData.get "signature" payload) [
        | none ↦ ok false
        | some signature ↦
            if JsonData.truthy signature
            then compare_signature (signature_of c.secret payload) signature
            else ok false
      ])
      else ok false

  unfoldable pub timestamp_valid : AddressBookSyncConfig → Option Json → Result Bool
  timestamp_valid c none =
      ok (elim (sp.skew "") [ none ↦ false | some n ↦ leb n c.max_timestamp_skew_seconds ])
  timestamp_valid c (some (str ts)) =
      ok (elim (sp.skew ts) [ none ↦ false | some n ↦ leb n c.max_timestamp_skew_seconds ])
  timestamp_valid c (some _) = err attribute_error
