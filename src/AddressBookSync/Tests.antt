-- ===== src/AddressBookSync/Tests.antt =====
-- A service with one trusted contact, and instances of the theorems on it.
use serverless_xmpp.Base.{◌⊎◌, String, true, false, some, List, [], ◌∷◌, ◌≡◌, refl, is_ascii}
use serverless_xmpp.Base.Outcome.{ok}
use serverless_xmpp.Base.Sorting.{sort_by}
use serverless_xmpp.Base.Table
use serverless_xmpp.Models.{AddressBookSyncPending}
use serverless_xmpp.Models.JsonData
use serverless_xmpp.Models.JsonData.{int, Json, Fields, field, end, str, obj}
use serverless_xmpp.Persistence.{empty, save_sync_pending, sync_key}
use serverless_xmpp.AddressBook.{sorted_contacts, AddressBook, get, remove}
use serverless_xmpp.AddressBook.Tests.{platform, book, book-IsConsistent, same_jids}
use serverless_xmpp.AddressBook.Mutations.{IsConsistent}
use serverless_xmpp.AddressBookSync.Signing.{verify_payload-sign_payload}
use serverless_xmpp.AddressBookSync.Inbound.{
  IsAdmitted, handle_inbound_iq-IsAdmitted, handle_inbound_iq_waits,
}
use serverless_xmpp.AddressBookSync.Applying.{apply_payload-IsConsistent}
use serverless_xmpp.AddressBookSync.Outbound.{sync_now_is_ignored}
use serverless_xmpp.AddressBookSync.{
  SyncService, decoded, handle_inbound_iq, accept, apply_payload, apply_remove, attempt,
  handle_payload, is_trusted, check_payload, store_pending,
}
use serverless_xmpp.AddressBookSync.Signature.{
  SyncPlatform, AddressBookSyncConfig, signature_of, sign_payload, verify_payload,
  compare_signature, timestamp_valid,
}
use serverless_xmpp.AddressBookSync.Updates.{
  sync_now, announce, build_update_payload, signed, update_fields,
}

abbrev sync_platform : SyncPlatform
sync_platform = record { mac = λ key d. "c2ln"; text_of = λ v. ""; skew = λ ts. some 0 }

abbrev config : AddressBookSyncConfig
config = record {
  enabled = true;
  auto_apply = false;
  secret = "key";
  max_timestamp_skew_seconds = 300;
}

abbrev unsigned : Fields
unsigned = field "action" (str "noop") (field "timestamp" (str "t1") end)

abbrev genuine : Fields
genuine =
    field "action" (str "noop") (field "timestamp" (str "t1") (field "signature" (str "c2ln") end))

abbrev row : AddressBookSyncPending
row = record {
  id = "p1";
  from_jid = "alice@example.org";
  action = "noop";
  contact_id = "";
  payload = obj genuine;
  received_at = "t1";
}

abbrev service : SyncService
service = record { book = book; db = empty; config = config; has_sender = true; pushed = [] }

abbrev deciding : SyncService
deciding = record service { db = record empty { sync_pending = row ∷ [] } }

verify_payload-sign_payload_example :
    verify_payload sync_platform config (JsonData.set "signature" (str "c2ln") unsigned) ≡ ok true
unfolding sign_payload is_ascii JsonData.truthy
verify_payload-sign_payload_example =
    verify_payload-sign_payload sync_platform config unsigned "c2ln" refl refl refl

received :
    (s' : SyncService) × (handle_inbound_iq platform "t1" sync_platform "p1" "alice@example.org"
        (decoded (obj genuine))
        service
      ≡ ok s')
unfolding handle_inbound_iq handle_payload is_trusted check_payload verify_payload compare_signature
    is_ascii JsonData.truthy JsonData.get timestamp_valid accept store_pending save_sync_pending
    Table.find
received = (
  record service {
    db = record empty { sync_pending = Table.upsert sync_key row [] };
    pushed = record { id = "p1"; from_jid = "alice@example.org"; action = some (str "noop") } ∷ [];
  },
  refl,
)

handle_inbound_iq-IsAdmitted_example :
    (received.0 ≡ service)
    ⊎ ((d : Fields) × (decoded (obj genuine) ≡ decoded (obj d))
        × IsAdmitted platform "t1" sync_platform "alice@example.org" d service
        × (accept platform "t1" sync_platform "p1" "alice@example.org" d service ≡ ok received.0))
handle_inbound_iq-IsAdmitted_example =
    handle_inbound_iq-IsAdmitted platform "t1" sync_platform "p1" "alice@example.org"
      (decoded (obj genuine)) service received.0 received.1

handle_inbound_iq_waits_example : received.0.book ≡ book
handle_inbound_iq_waits_example =
    handle_inbound_iq_waits platform "t1" sync_platform "p1" "alice@example.org"
      (decoded (obj genuine)) service received.0 refl received.1

abbrev removal : Fields
removal = field "action" (str "remove") (field "contact_id" (str "alice") end)

removed : (book' : AddressBook) × (apply_payload platform "t1" removal book ≡ ok book')
unfolding apply_payload apply_remove JsonData.get JsonData.truthy get Table.find
removed = (attempt (remove platform "t1" "alice" book) book, refl)

apply_payload-IsConsistent_example : IsConsistent platform removed.0
apply_payload-IsConsistent_example =
    apply_payload-IsConsistent platform "t1" same_jids removal book removed.0 book-IsConsistent
      removed.1

kept_book : apply_payload platform "t1" genuine book ≡ ok book
unfolding apply_payload JsonData.get
kept_book = refl

sent_out :
    (result : List String × Fields) × (sync_now platform "t1" sync_platform [] service ≡ ok result)
unfolding sync_now announce build_update_payload signed sign_payload update_fields sorted_contacts
    sort_by JsonData.set signature_of
sent_out = (
  (
    "alice@example.org" ∷ [],
    field "action" (str "announce") (
        field "version" (int 1) (
          field "content_hash" (str book.content_hash) (
            field "timestamp" (str "t1")
              (field "contact_id" (str "__book_meta__") (field "signature" (str "c2ln") end))))),
  ),
  refl,
)

sync_now_is_ignored_example :
    (JsonData.get "action" sent_out.0.1 ≡ some (str "announce"))
    × (apply_payload platform "t1" sent_out.0.1 book ≡ ok book)
sync_now_is_ignored_example =
    sync_now_is_ignored platform "t1" sync_platform [] sent_out.0.0 service sent_out.0.1 book
      sent_out.1
