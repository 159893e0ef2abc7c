-- ===== src/AddressBookSync/Signing.antt =====
-- The signatures of src/xmpp_p2p_chat/connection_service/addressbook_sync.py.
use serverless_xmpp.Base.{
  ap, inl, inr, Option-cases, String, true, ◌≡◌, arith, some, is_ascii, truthy, eq_iff,
}
use serverless_xmpp.Base.Outcome.{ok}
use serverless_xmpp.Models.JsonData
use serverless_xmpp.Models.JsonData.{
  Json, null, bool, int, number, arr, obj, Fields, str, get-set, without-set_self,
}
use serverless_xmpp.AddressBookSync.Signature.{
  SyncPlatform, AddressBookSyncConfig, signature_of, sign_payload, verify_payload,
  compare_signature, sorted_fields,
}

compare_signature-same :
    (sp : SyncPlatform) (expected : String) (v : Json)
    → compare_signature sp expected v ≡ ok true
    → v ≡ str expected
unfolding compare_signature
compare_signature-same sp expected (str s) h = ground (arith, eq_iff expected s)
compare_signature-same sp expected null h = absurd (cc h)
compare_signature-same sp expected (bool b) h = absurd (cc h)
compare_signature-same sp expected (int n) h = absurd (cc h)
compare_signature-same sp expected (number t) h = absurd (cc h)
compare_signature-same sp expected (arr l) h = absurd (cc h)
compare_signature-same sp expected (obj d) h = absurd (cc h)

module _ (sp : SyncPlatform) (c : AddressBookSyncConfig) (d : Fields) where
  -- The signature of a dict does not depend on the signature that is in it.
  signature_of-set :
      (s : String)
      → signature_of sp c.secret (JsonData.set "signature" (str s) d) ≡ signature_of sp c.secret d
  unfolding signature_of
  signature_of-set s =
      ap (λ x. sp.mac c.secret (sorted_fields x)) (without-set_self "signature" (str s) d)

  -- With a secret, and a digest in printable ASCII: a dict that was signed is accepted, whatever
  -- signature it had before.
  pub verify_payload-sign_payload :
      (signature : String)
      → sign_payload sp c d ≡ ok signature
      → JsonData.truthy (str signature) ≡ true
      → is_ascii signature ≡ true
      → verify_payload sp c (JsonData.set "signature" (str signature) d) ≡ ok true
  unfolding sign_payload verify_payload compare_signature
  verify_payload-sign_payload signature e t a = ground (
    arith,
    signature_of-set signature,
    get-set "signature" "signature" (str signature) d,
    eq_iff (signature_of sp c.secret d) signature,
  )

  -- What is accepted was signed with the secret: it carries the digest of its other fields.
  pub verify_payload-is_signed :
      verify_payload sp c d ≡ ok true
      → (truthy c.secret ≡ true)
        × (JsonData.get "signature" d ≡ some (str (signature_of sp c.secret d)))
  unfolding verify_payload
  verify_payload-is_signed h = elim (Option-cases (JsonData.get "signature" d)) [
    | inl missing ↦ absurd (ground arith)
    | inr (v, there) ↦ ground (arith, compare_signature-same sp (signature_of sp c.secret d) v)
  ]
