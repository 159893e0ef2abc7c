-- ===== src/Api/BookMethods.antt =====
-- The methods `addressbook.*` of src/xmpp_p2p_chat/connection_service/api.py that read and change the
-- address book.
use serverless_xmpp.Base.{
  String, Bool, true, false, ◌||◌, Option, none, some, List, [], ◌∷◌, ◌++◌, ◌==◌, if◌then◌else◌,
  is_some, contains,
}
use serverless_xmpp.Base.Outcome.{
  Result, ok, err, type_error, value_error, address_book_error, ◌>>=◌,
}
use serverless_xmpp.Config.{addressbook_path, addressbooks_dir}
use serverless_xmpp.Models.{Contact}
use serverless_xmpp.Models.Schema.{model_validate}
use serverless_xmpp.Models.JsonData as JsonData
use serverless_xmpp.Models.JsonData.{
  Json, null, bool, int, number, str, arr, obj, Items, nil, cons, Fields, end, field, get,
}
use serverless_xmpp.Persistence.{Db, get_presence}
use serverless_xmpp.AddressBook as AddressBook
use serverless_xmpp.AddressBook.{sorted_contacts}
use serverless_xmpp.AddressBook.Loading.{reload}
use serverless_xmpp.AddressBook.Status.{AddressBookStatus, status}
use serverless_xmpp.AddressBookSync.Updates.{broadcast_mutation}
use serverless_xmpp.Api.{Outcome, answer}
use serverless_xmpp.Api.Service.{
  SyncState, ApiPlatform, Call, Service, book_of, with_book, sync_service, required, optional,
  outcome_of, finish, to_items,
}

-- `presence_map` of the contacts, over the entries that are there.
unfoldable pub presence_map : List Contact → Db → Fields → Fields
presence_map [] db entries = entries
presence_map (c ∷ contacts) db entries =
    let (show, text) = get_presence c.id db in
    presence_map contacts db
      (JsonData.set c.id (obj (field "show" (str show) (field "status" (str text) end))) entries)

-- `"id" in contact_data` of what is no dict raises, or leads to what pydantic refuses.
unfoldable pub has_id : Items → Bool
has_id nil = false
has_id (cons (str s) items) = s == "id" || has_id items
has_id (cons _ items) = has_id items

unfoldable pub contact_fields : String → Json → Result Fields
unfolding has_id
contact_fields new_id (obj d) =
    if is_some (get "id" d) then ok d else ok (JsonData.set "id" (str new_id) d)
contact_fields new_id (arr items) = if has_id items then err value_error else err type_error
contact_fields new_id (str s) = if contains s "id" then err value_error else err type_error
contact_fields new_id _ = err type_error

abbrev pub or_value : Option Json → Json → Json
or_value none d = d
or_value (some v) d = v

-- `params.get("partial", {…})`, and what `dict.update` takes of it; a list of pairs is refused here.
unfoldable pub partial_fields : Json → Result Fields
partial_fields (obj d) = ok d
partial_fields (arr nil) = ok end
partial_fields (str s) = if s == "" then ok end else err value_error
partial_fields _ = err type_error

abbrev pub all_but_id : Json → Json
all_but_id (obj d) = obj (JsonData.without "id" d)
all_but_id v = v

module _ (a : ApiPlatform) (call : Call) where
  unfoldable pub book_status : Service → Result AddressBookStatus
  book_status s =
      status (addressbook_path s.config) (addressbooks_dir s.config) call.now (book_of s)

  unfoldable pub contact_list : Service → AddressBookStatus → Outcome
  unfolding presence_map
  contact_list s found =
      let contacts = sorted_contacts a.base (book_of s).contacts in
      answer (
        obj (
          field "contacts" (arr (to_items (λ c. obj (a.base.schema.dump c)) contacts)) (
            field "presence" (obj (presence_map contacts s.manager.db end))
              (field "status" (a.dumps.book_status found) end))))

  unfoldable pub addressbook_list : Service → Outcome × Service
  unfolding contact_list book_status
  addressbook_list s = (outcome_of a.describe (contact_list s) (book_status s), s)

  unfoldable pub addressbook_status : Service → Outcome × Service
  unfolding book_status
  addressbook_status s =
      (outcome_of a.describe (λ found. answer (a.dumps.book_status found)) (book_status s), s)

  unfoldable pub addressbook_reload : Service → Outcome × Service
  unfolding addressbook_status
  addressbook_reload s =
      addressbook_status (with_book s (reload a.base call.file_time call.now (book_of s)))

  abbrev pub announced : Result (Option (List String × Fields)) → Service → Service
  announced (ok (some sent)) s = record s { announced = s.announced ++ sent ∷ [] }
  announced (ok none) s = s
  announced (err e) s = s

  unfoldable pub broadcast_by :
      Option SyncState → String → Option Contact → Option String → Service → Service
  broadcast_by none action contact contact_id s = s
  broadcast_by (some state) action contact contact_id s =
      let sent =
        broadcast_mutation a.base call.now a.sync action contact contact_id
          (sync_service state s) in
      if state.config.enabled then announced sent s else s

  -- `_maybe_broadcast_sync`: what goes wrong is only logged.
  unfoldable pub maybe_broadcast_sync : String → Option Contact → Option String → Service → Service
  unfolding broadcast_by
  maybe_broadcast_sync action contact contact_id s = broadcast_by s.sync action contact contact_id s

  unfoldable pub added : Service → Contact × AddressBook.AddressBook → Outcome × Service
  unfolding maybe_broadcast_sync
  added s (contact, book) = (
    answer (
        obj (field "id" (str contact.id) (field "contact" (obj (a.base.schema.dump contact)) end))),
    maybe_broadcast_sync "add" (some contact) none (with_book s book),
  )

  unfoldable pub add_contact :
      Json → AddressBook.AddressBook → Result (Contact × AddressBook.AddressBook)
  unfolding contact_fields
  add_contact params book = do
    given ← optional "contact" params
    d ← contact_fields call.new_id (or_value given params)
    contact ← model_validate a.base.unicode a.base.schema (obj d)
    AddressBook.add a.base call.now contact book

  unfoldable pub addressbook_add : Json → Service → Outcome × Service
  unfolding added add_contact
  addressbook_add params s = finish a.describe s (added s) (add_contact params (book_of s))

  unfoldable pub changed : Service → Contact × AddressBook.AddressBook → Outcome × Service
  unfolding maybe_broadcast_sync
  changed s (contact, book) = (
    answer (obj (field "contact" (obj (a.base.schema.dump contact)) end)),
    maybe_broadcast_sync "update" (some contact) none (with_book s book),
  )

  -- The contact is looked up before the new values are.
  abbrev pub known : String → AddressBook.AddressBook → Result Contact
  known contact_id book = elim (AddressBook.get contact_id book) [
    | none ↦ err address_book_error
    | some contact ↦ ok contact
  ]

  unfoldable pub update_contact :
      Json → AddressBook.AddressBook → Result (Contact × AddressBook.AddressBook)
  unfolding partial_fields
  update_contact params book = do
    contact_id ← required "id" params
    given ← optional "partial" params
    existing ← known contact_id book
    partial ← partial_fields (or_value given (all_but_id params))
    AddressBook.update a.base call.now contact_id partial book

  unfoldable pub addressbook_update : Json → Service → Outcome × Service
  unfolding changed update_contact
  addressbook_update params s = finish a.describe s (changed s) (update_contact params (book_of s))

  unfoldable pub removed : Service → String × AddressBook.AddressBook → Outcome × Service
  unfolding maybe_broadcast_sync
  removed s (contact_id, book) = (
    answer (obj (field "ok" (bool true) end)),
    maybe_broadcast_sync "remove" none (some contact_id) (with_book s book),
  )

  unfoldable pub remove_contact :
      Json → AddressBook.AddressBook → Result (String × AddressBook.AddressBook)
  remove_contact params book = do
    contact_id ← required "id" params
    book' ← AddressBook.remove a.base call.now contact_id book
    ok (contact_id, book')

  unfoldable pub addressbook_remove : Json → Service → Outcome × Service
  unfolding removed remove_contact
  addressbook_remove params s = finish a.describe s (removed s) (remove_contact params (book_of s))
