-- ===== src/AddressBookSync.antt =====
-- Signed updates of the address book between contacts: `AddressBookSyncService` of
-- src/xmpp_p2p_chat/connection_service/addressbook_sync.py. A method that raises leaves the state
-- as it was. What is sent is the list of its recipients, with the payload.
pub mod Signature
pub mod Updates
pub mod Signing
pub mod Inbound
pub mod Applying
pub mod Outbound
pub mod Tests
use serverless_xmpp.Base.{
  ℕ, String, is_ascii, Bool, true, false, ◌&&◌, ◌||◌, not, Option, none, some, List, [], ◌∷◌, ◌++◌,
  ◌==◌, if◌then◌else◌, truthy, is_some, leb, any, Unicode, length, select, map,
}
use serverless_xmpp.Base.Outcome.{
  Result, ok, err, value_error, runtime_error, address_book_error, type_error, attribute_error,
  ◌>>=◌,
}
use serverless_xmpp.Models.{Datetime, Contact, AddressBookSyncPending, AddressBookSyncStatus}
use serverless_xmpp.Models.JsonData
use serverless_xmpp.Models.JsonData.{
  Json, null, int, bool, number, Items, nil, cons, Fields, end, field, str, arr, obj,
}
use serverless_xmpp.Models.Schema.{model_validate}
use serverless_xmpp.Persistence.{
  Db, save_sync_pending, list_sync_pending, get_sync_pending, delete_sync_pending,
}
use serverless_xmpp.AddressBook.{Platform, AddressBook, get, add, update, remove, sorted_contacts}
use serverless_xmpp.AddressBookHash.{insert_field}
use Signature.{SyncPlatform, AddressBookSyncConfig, verify_payload, timestamp_valid}

-- A push of `addressbook.sync_pending`: the id, the sender and the action.
pub record Notice : Type 0 where
  pub id : String
  pub from_jid : String
  pub action : Option Json

pub record SyncService : Type 0 where
  pub book : AddressBook
  pub db : Db
  pub config : AddressBookSyncConfig
  pub has_sender : Bool
  pub pushed : List Notice

unfoldable pub configure : Option Bool → Option Bool → AddressBookSyncConfig → AddressBookSyncConfig
configure enabled auto_apply c = record c {
  enabled = elim enabled [ none ↦ c.enabled | some b ↦ b ];
  auto_apply = elim auto_apply [ none ↦ c.auto_apply | some b ↦ b ];
}

unfoldable pub status : SyncService → AddressBookSyncStatus
status s = record {
  enabled = s.config.enabled;
  auto_apply = s.config.auto_apply;
  pending_count = length (list_sync_pending s.db);
  secret_configured = truthy s.config.secret;
}

-- What an element carries: no payload, one that cannot be decoded, or a JSON value.
pub data Payload : Type 0 where
  no_payload undecodable : Payload
  decoded : Json → Payload

-- `v == "…"` of a value of a dict
abbrev pub is_text : String → Option Json → Bool
is_text s (some (str t)) = s == t
is_text s _ = false

abbrev pub is_truthy : Option Json → Bool
is_truthy none = false
is_truthy (some v) = JsonData.truthy v

-- A change that is refused is logged.
unfoldable pub attempt : Result AddressBook → AddressBook → AddressBook
attempt (ok book') book = book'
attempt (err e) book = book

module _ (p : Platform) (now : Datetime) where
  abbrev pub second {ℓ} : {A : Type ℓ} → Result (A × AddressBook) → Result AddressBook
  second (err e) = err e
  second (ok (c, book')) = ok book'

  -- `model_validate` of the contact in the payload, then the change
  unfoldable pub apply_add : Result Contact → AddressBook → Result AddressBook
  apply_add (err e) book = err e
  apply_add (ok contact) book =
      if is_some (get contact.id book)
      then second (update p now contact.id (p.schema.dump contact) book)
      else second (add p now contact book)

  unfoldable pub apply_update : Result Contact → AddressBook → Result AddressBook
  apply_update (err e) book = err e
  apply_update (ok contact) book = second (update p now contact.id (p.schema.dump contact) book)

  -- A list or a dict cannot be looked up in a dict.
  unfoldable pub apply_remove : Option Json → AddressBook → Result AddressBook
  apply_remove (some (str contact_id)) book =
      if is_some (get contact_id book)
      then ok (attempt (remove p now contact_id book) book)
      else ok book
  apply_remove (some (arr l)) book = err type_error
  apply_remove (some (obj d)) book = err type_error
  apply_remove _ book = ok book

  abbrev pub validated : Option Json → Result Contact
  validated none = err value_error
  validated (some v) = model_validate p.unicode p.schema v

  -- `_apply_payload`
  unfoldable pub apply_payload : Fields → AddressBook → Result AddressBook
  unfolding apply_add apply_update apply_remove
  apply_payload payload book =
      let action = JsonData.get "action" payload in
      let contact = JsonData.get "contact" payload in
      let contact_id = JsonData.get "contact_id" payload in
      if is_text "add" action && is_truthy contact
      then ok (attempt (apply_add (validated contact) book) book)
      else if is_text "update" action && is_truthy contact
      then ok (attempt (apply_update (validated contact) book) book)
      else if is_text "remove" action && is_truthy contact_id
      then apply_remove contact_id book
      else ok book

  abbrev pub with_book : SyncService → Result AddressBook → Result SyncService
  with_book s (err e) = err e
  with_book s (ok book) = ok (record s { book = book })

  module _ (sp : SyncPlatform) where
    abbrev pub text_or_empty : Option Json → String
    text_or_empty none = ""
    text_or_empty (some (str s)) = s
    text_or_empty (some v) = sp.text_of v

    -- What is stored for the user to decide on, under a new id.
    abbrev pub pending_row : String → String → Fields → AddressBookSyncPending
    pending_row pending_id from_jid payload = record {
      id = pending_id;
      from_jid = from_jid;
      action = text_or_empty (JsonData.get "action" payload);
      contact_id = text_or_empty (JsonData.get "contact_id" payload);
      payload = obj payload;
      received_at = now;
    }

    abbrev pub notice : String → String → Fields → Notice
    notice pending_id from_jid payload = record {
      id = pending_id;
      from_jid = from_jid;
      action = JsonData.get "action" payload;
    }

    unfoldable pub store_pending : String → String → Fields → SyncService → Result SyncService
    store_pending pending_id from_jid payload s = do
      db ← save_sync_pending (pending_row pending_id from_jid payload) s.db
      ok (record s { db = db; pushed = s.pushed ++ notice pending_id from_jid payload ∷ [] })

    unfoldable pub accept : String → String → Fields → SyncService → Result SyncService
    unfolding store_pending
    accept pending_id from_jid payload s =
        if s.config.auto_apply
        then with_book s (apply_payload payload s.book)
        else store_pending pending_id from_jid payload s

    -- The two checks of a decoded dict, and what follows.
    unfoldable pub check_payload : String → String → Fields → SyncService → Result SyncService
    unfolding accept
    check_payload pending_id from_jid payload s = do
      genuine ← verify_payload sp s.config payload
      fresh ←
          if genuine
          then timestamp_valid sp s.config (JsonData.get "timestamp" payload)
          else ok false
      if fresh then accept pending_id from_jid payload s else ok s

    unfoldable pub is_trusted : String → AddressBook → Bool
    is_trusted from_jid book = any (λ c. p.unicode.lower c.jid == from_jid) book.contacts

    -- A value that is no dict has no `get`, which a service without a secret does not ask for.
    unfoldable pub handle_payload : String → String → Payload → SyncService → Result SyncService
    unfolding check_payload
    handle_payload pending_id from_jid no_payload s = ok s
    handle_payload pending_id from_jid undecodable s = ok s
    handle_payload pending_id from_jid (decoded (obj d)) s = check_payload pending_id from_jid d s
    handle_payload pending_id from_jid (decoded _) s =
        if truthy s.config.secret then err attribute_error else ok s

    -- `handle_inbound_iq`, of an element from a bare JID.
    unfoldable pub handle_inbound_iq : String → String → Payload → SyncService → Result SyncService
    unfolding handle_payload is_trusted
    handle_inbound_iq pending_id bare payload s =
        if s.config.enabled && is_trusted (p.unicode.lower bare) s.book
        then handle_payload pending_id (p.unicode.lower bare) payload s
        else ok s

  -- `_apply_payload` of a stored row; a payload that is no dict is not read back.
  unfoldable pub apply_row : AddressBookSyncPending → SyncService → Result SyncService
  unfolding apply_payload
  apply_row row s = elim row.payload [
    | null ↦ err value_error
    | bool b ↦ err value_error
    | int n ↦ err value_error
    | number t ↦ err value_error
    | str t ↦ err value_error
    | arr l ↦ err value_error
    | obj d ↦ with_book s (apply_payload d s.book)
  ]

  unfoldable pub apply_pending : String → SyncService → Result (Bool × SyncService)
  apply_pending pending_id s = elim (get_sync_pending pending_id s.db) [
    | none ↦ ok (false, s)
    | some row ↦ do
      s' ← apply_row row s
      ok (true, record s' { db = delete_sync_pending pending_id s'.db })
  ]

unfoldable pub reject_pending : String → SyncService → Bool × SyncService
reject_pending pending_id s = elim (get_sync_pending pending_id s.db) [
  | none ↦ (false, s)
  | some row ↦ (true, record s { db = delete_sync_pending pending_id s.db })
]
