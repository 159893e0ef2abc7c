-- ===== src/Api/SyncMethods.antt =====
-- The methods of src/xmpp_p2p_chat/connection_service/api.py on the sync of address books, with the
-- methods of `SessionManager` in src/xmpp_p2p_chat/connection_service/session.py that they call.
use serverless_xmpp.Base.{
  String, Bool, true, false, not, ◌&&◌, Option, none, some, List, [], ◌∷◌, ◌++◌, if◌then◌else◌,
  truthy, length,
}
use serverless_xmpp.Base.Outcome.{Result, ok, err, type_error, value_error, ◌>>=◌}
use serverless_xmpp.Models.JsonData as JsonData
use serverless_xmpp.Models.JsonData.{
  Json, null, bool, int, str, arr, obj, Items, nil, cons, Fields, end, field,
}
use serverless_xmpp.Persistence.{list_sync_pending}
use serverless_xmpp.AddressBookSync as AddressBookSync
use serverless_xmpp.AddressBookSync.{SyncService, configure, reject_pending}
use serverless_xmpp.AddressBookSync.Updates.{sync_now}
use serverless_xmpp.Api.{Outcome, answer, rpc_error}
use serverless_xmpp.Api.Service.{
  ApiPlatform, Call, Service, SyncState, sync_service, with_sync, required, optional, finish,
  to_items,
}

abbrev pub bool_or : Bool → Option Json → Bool
bool_or d none = d
bool_or d (some v) = JsonData.truthy v

-- `auto_apply`, where `null` leaves it as it is
abbrev pub bool_or_none : Option Json → Option Bool
bool_or_none none = none
bool_or_none (some null) = none
bool_or_none (some v) = some (JsonData.truthy v)

-- `contact_ids`: a list of texts, or nothing
unfoldable pub texts_of : Items → Result (List String)
texts_of nil = ok []
texts_of (cons (str s) items) = texts_of items >>= λ texts. ok (s ∷ texts)
texts_of (cons _ items) = err type_error

unfoldable pub contact_ids_of : Option Json → Result (List String)
unfolding texts_of
contact_ids_of none = ok []
contact_ids_of (some null) = ok []
contact_ids_of (some (arr items)) = texts_of items
contact_ids_of (some _) = err type_error

abbrev pub ok_answer : Outcome
ok_answer = answer (obj (field "ok" (bool true) end))

abbrev pub not_found : Outcome
not_found = rpc_error "-32004" "Pending update not found"

abbrev pub found_or_not : Bool → Outcome
found_or_not true = ok_answer
found_or_not false = not_found

module _ (a : ApiPlatform) (call : Call) where
  unfoldable pub sync_status : Service → Outcome × Service
  sync_status s = elim s.sync [
    | none ↦ (
      answer (
          obj (
            field "enabled" (bool false) (
              field "auto_apply" (bool false)
                (field "pending_count" (int 0) (field "secret_configured" (bool false) end))))),
      s,
    )
    | some state ↦ (answer (a.dumps.sync_status (AddressBookSync.status (sync_service state s))), s)
  ]

  abbrev pub configured : Bool → Option Bool → SyncState → Service → Outcome × Service
  configured enabled auto_apply state s =
      let state' : SyncState = record state {
        config = configure (some enabled) auto_apply state.config;
      } in
      (
        answer (a.dumps.sync_status (AddressBookSync.status (sync_service state' s))),
        record s { sync = some state' },
      )

  -- `enable_addressbook_sync`: it is not enabled without a secret.
  unfoldable pub enable_addressbook_sync : Bool → Option Bool → Service → Outcome × Service
  enable_addressbook_sync enabled auto_apply s = elim s.sync [
    | none ↦ finish a.describe s (λ (x : Unit {0}). (ok_answer, s)) (err value_error)
    | some state ↦
        if enabled && not (truthy state.config.secret)
        then finish a.describe s (λ (x : Unit {0}). (ok_answer, s)) (err value_error)
        else configured enabled auto_apply state s
  ]

  abbrev pub asked : Json → Result (Bool × Option Bool)
  asked params = do
    enabled ← optional "enabled" params
    auto_apply ← optional "auto_apply" params
    ok (bool_or true enabled, bool_or_none auto_apply)

  unfoldable pub addressbook_enable_sync : Json → Service → Outcome × Service
  unfolding enable_addressbook_sync
  addressbook_enable_sync params s =
      finish a.describe s (λ (x : Bool × Option Bool). enable_addressbook_sync x.0 x.1 s)
        (asked params)

  -- `sync_addressbook_now`
  unfoldable pub sync_addressbook_now : List String → Service → Result (List String × Fields)
  sync_addressbook_now contact_ids s = elim s.sync [
    | none ↦ err value_error
    | some state ↦ sync_now a.base call.now a.sync contact_ids (sync_service state s)
  ]

  abbrev pub synced : Service → List String × Fields → Outcome × Service
  synced s sent = (
    answer (
        obj
          (field "sent" (int (length sent.0)) (field "version" (int s.manager.book.version) end))),
    record s { announced = s.announced ++ sent ∷ [] },
  )

  unfoldable pub addressbook_sync_now : Json → Service → Outcome × Service
  unfolding sync_addressbook_now contact_ids_of
  addressbook_sync_now params s = finish a.describe s (synced s) (
      optional "contact_ids" params >>= contact_ids_of >>= λ contact_ids.
      sync_addressbook_now contact_ids s)

  -- `get_pending_sync_updates`
  unfoldable pub pending_updates : Service → Items
  pending_updates s = elim s.sync [
    | none ↦ nil
    | some state ↦ to_items a.dumps.pending (list_sync_pending s.manager.db)
  ]

  unfoldable pub addressbook_get_pending_updates : Service → Outcome × Service
  unfolding pending_updates
  addressbook_get_pending_updates s =
      (answer (obj (field "updates" (arr (pending_updates s)) end)), s)

  -- `apply_pending_sync_update` and `reject_pending_sync_update`
  unfoldable pub apply_pending_sync_update : String → Service → Result (Bool × Service)
  apply_pending_sync_update id s = elim s.sync [
    | none ↦ ok (false, s)
    | some state ↦
        (AddressBookSync.apply_pending a.base call.now id (sync_service state s) >>= λ applied.
        ok (applied.0, with_sync s applied.1))
  ]

  unfoldable pub reject_pending_sync_update : String → Service → Bool × Service
  reject_pending_sync_update id s = elim s.sync [
    | none ↦ (false, s)
    | some state ↦
        let rejected = reject_pending id (sync_service state s) in
        (rejected.0, with_sync s rejected.1)
  ]

  unfoldable pub addressbook_apply_pending_update : Json → Service → Outcome × Service
  unfolding apply_pending_sync_update
  addressbook_apply_pending_update params s =
      finish a.describe s (λ (x : Bool × Service). (found_or_not x.0, x.1))
        (required "id" params >>= λ id. apply_pending_sync_update id s)

  unfoldable pub addressbook_reject_pending_update : Json → Service → Outcome × Service
  unfolding reject_pending_sync_update
  addressbook_reject_pending_update params s =
      finish a.describe s (λ (x : Bool × Service). (found_or_not x.0, x.1))
        (required "id" params >>= λ id. ok (reject_pending_sync_update id s))
