-- ===== src/AddressBookSync/Updates.antt =====
-- The updates that src/xmpp_p2p_chat/connection_service/addressbook_sync.py sends.
use serverless_xmpp.Base.{
  String, Bool, true, false, ◌&&◌, ◌||◌, not, Option, none, some, List, [], ◌∷◌, ◌==◌,
  if◌then◌else◌, truthy, any, select, map,
}
use serverless_xmpp.Base.Outcome.{Result, ok, err, value_error, runtime_error, ◌>>=◌}
use serverless_xmpp.Models.{Datetime, Contact}
use serverless_xmpp.Models.JsonData
use serverless_xmpp.Models.JsonData.{
  Json, null, int, bool, number, Items, nil, cons, Fields, end, field, str, arr, obj,
}
use serverless_xmpp.AddressBook.{Platform, AddressBook, sorted_contacts}
use serverless_xmpp.AddressBookSync.Signature.{SyncPlatform, AddressBookSyncConfig, sign_payload}
use serverless_xmpp.AddressBookSync.{SyncService}

module _ (p : Platform) (now : Datetime) (sp : SyncPlatform) where
  -- `build_update_payload`, before and after it is signed.
  unfoldable pub update_fields : String → Option Contact → Option String → AddressBook → Fields
  update_fields action contact contact_id book = field "action" (str action) (
      field "version" (int book.version) (
        field "content_hash" (str book.content_hash) (
          field "timestamp" (str now) (elim contact [
            | some c ↦ field "contact" (obj (p.schema.dump c)) (field "contact_id" (str c.id) end)
            | none ↦ elim contact_id [
              | none ↦ end
              | some k ↦ if truthy k then field "contact_id" (str k) end else end
            ]
          ]))))

  unfoldable pub signed : AddressBookSyncConfig → Fields → Result Fields
  signed c d = do signature ← sign_payload sp c d; ok (JsonData.set "signature" (str signature) d)

  unfoldable pub build_update_payload :
      String → Option Contact → Option String → SyncService → Result Fields
  unfolding signed update_fields
  build_update_payload action contact contact_id s =
      signed s.config (update_fields action contact contact_id s.book)

  abbrev pub uses_server : Contact → Bool
  uses_server c =
      c.preferred_transport == "xmpp-server"
      || elim c.xmpp_server [ none ↦ false | some server ↦ truthy server ]

  -- `c.id in allowed`, if ids are given
  abbrev pub is_allowed : List String → Contact → Bool
  is_allowed [] c = true
  is_allowed (k ∷ ks) c = c.id == k || any (λ j. c.id == j) ks

  -- The JIDs that the announcement goes to, and it. It is signed a second time, after its action is
  -- replaced.
  unfoldable pub announce : List String → SyncService → Result (List String × Fields)
  announce contact_ids s = do
    payload ← build_update_payload "update" none (some "__book_meta__") s
    announcement ← signed s.config (JsonData.set "action" (str "announce") payload)
    ok (
      map (λ c. c.jid)
          (select (is_allowed contact_ids)
            (select uses_server (sorted_contacts p s.book.contacts))),
      announcement,
    )

  unfoldable pub sync_now : List String → SyncService → Result (List String × Fields)
  unfolding announce
  sync_now contact_ids s =
      if s.config.enabled
      then if s.has_sender then announce contact_ids s else err runtime_error
      else err value_error

  abbrev pub jid_or_empty : Option Contact → String
  jid_or_empty none = ""
  jid_or_empty (some c) = c.jid

  unfoldable pub recipients : Option Contact → AddressBook → List Contact
  recipients contact book =
      select (λ peer. not (peer.jid == jid_or_empty contact) && uses_server peer)
        (sorted_contacts p book.contacts)

  -- `broadcast_mutation`: nothing is sent if the service is off or has no sender.
  unfoldable pub broadcast :
      String → Option Contact → Option String → SyncService → Result (List String × Fields)
  unfolding build_update_payload recipients
  broadcast action contact contact_id s = do
    payload ← build_update_payload action contact contact_id s
    ok (map (λ c. c.jid) (recipients contact s.book), payload)

  -- Nothing is sent if the service is off or has no sender.
  unfoldable pub broadcast_mutation :
      String → Option Contact → Option String → SyncService → Result (Option (List String × Fields))
  unfolding broadcast
  broadcast_mutation action contact contact_id s =
      if s.config.enabled && s.has_sender
      then (broadcast action contact contact_id s >>= λ sent. ok (some sent))
      else ok none
