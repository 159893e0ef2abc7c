-- ===== src/Api/Consistency.antt =====
-- What no call can break: the address book of the service that
-- src/xmpp_p2p_chat/connection_service/api.py runs.
use serverless_xmpp.Base.{
  if◌then◌else◌, String, Bool, true, false, ◌≡◌, refl, sym, Option, none, some, List,
}
use mathlib.Core.Path.{subst}
use serverless_xmpp.Base.Outcome.{Result, ok, err, chain-ok, ok-injective}
use serverless_xmpp.Models.{Contact}
use serverless_xmpp.Models.Schema.{LowerKeepsJids, model_validate}
use serverless_xmpp.Models.JsonData.{Json, obj, Fields}
use serverless_xmpp.AddressBook as AddressBook
use serverless_xmpp.AddressBook.Mutations.{
  IsConsistent, add-IsConsistent, update-IsConsistent, remove-IsConsistent,
}
use serverless_xmpp.AddressBook.Loaded.{model_validate-IsStable, reload-IsConsistent}
use serverless_xmpp.Api.{Outcome}
use serverless_xmpp.Api.Service.{
  ApiPlatform, Call, Service, SyncState, finish, sync_service, required, optional,
}
use serverless_xmpp.AddressBookSync.Updates.{broadcast_mutation}
use serverless_xmpp.Api.BookMethods.{
  broadcast_by, maybe_broadcast_sync, announced, addressbook_reload, addressbook_status,
  addressbook_add, addressbook_update, addressbook_remove, added, add_contact, changed,
  update_contact, removed, remove_contact, contact_fields, or_value, partial_fields, known,
  all_but_id,
}

module _ (a : ApiPlatform) (call : Call) where
  -- The address book of the service has unique ids, and valid contacts.
  abbrev pub HasGoodBook : Service → Type 0
  HasGoodBook s = IsConsistent a.base s.manager.book

  -- A method that changes something only if it succeeds.
  pub finish-keeps :
      {A : Type 0} (s : Service) (f : A → Outcome × Service) (r : Result A)
      → HasGoodBook s
      → ((x : A) → r ≡ ok x → HasGoodBook (f x).1)
      → HasGoodBook (finish a.describe s f r).1
  unfolding finish
  finish-keeps s f (ok x) h keeps = keeps x refl
  finish-keeps s f (err e) h keeps = h

  announced-manager :
      (r : Result (Option (List String × Fields))) (s : Service)
      → (announced a call r s).manager ≡ s.manager
  announced-manager (ok none) s = refl
  announced-manager (ok (some sent)) s = refl
  announced-manager (err e) s = refl

  if-manager :
      (b : Bool) (x s : Service) → x.manager ≡ s.manager → (if b then x else s).manager ≡ s.manager
  if-manager true x s h = h
  if-manager false x s h = refl

  broadcast_by-manager :
      (sync : Option SyncState) (action : String) (contact : Option Contact)
      (contact_id : Option String) (s : Service)
      → (broadcast_by a call sync action contact contact_id s).manager ≡ s.manager
  unfolding broadcast_by
  broadcast_by-manager none action contact contact_id s = refl
  broadcast_by-manager (some state) action contact contact_id s =
      let sent =
        broadcast_mutation a.base call.now a.sync action contact contact_id
          (sync_service state s) in
      if-manager state.config.enabled (announced a call sent s) s (announced-manager sent s)

  -- A broadcast changes nothing of the address book.
  maybe_broadcast_sync-keeps :
      (action : String) (contact : Option Contact) (contact_id : Option String) (s : Service)
      → HasGoodBook s
      → HasGoodBook (maybe_broadcast_sync a call action contact contact_id s)
  unfolding maybe_broadcast_sync
  maybe_broadcast_sync-keeps action contact contact_id s h =
      subst (λ m. IsConsistent a.base m.book)
        (sym (broadcast_by-manager s.sync action contact contact_id s)) h

  module _ (keeps : LowerKeepsJids a.base.unicode a.base.schema) where
    add_contact-IsConsistent :
        (params : Json) (book : AddressBook.AddressBook) (x : Contact × AddressBook.AddressBook)
        → IsConsistent a.base book
        → add_contact a call params book ≡ ok x
        → IsConsistent a.base x.1
    unfolding add_contact
    add_contact-IsConsistent params book x h e =
        let (given, e0, f0) = chain-ok (optional "contact" params) _ e in
        let (d, e1, f1) = chain-ok (contact_fields call.new_id (or_value given params)) _ f0 in
        let (contact, e2, f2) =
          chain-ok (model_validate a.base.unicode a.base.schema (obj d)) _ f1 in
        add-IsConsistent a.base call.now book contact x.0 x.1
          (model_validate-IsStable a.base keeps (obj d) contact e2) h f2

    update_contact-IsConsistent :
        (params : Json) (book : AddressBook.AddressBook) (x : Contact × AddressBook.AddressBook)
        → IsConsistent a.base book
        → update_contact a call params book ≡ ok x
        → IsConsistent a.base x.1
    unfolding update_contact
    update_contact-IsConsistent params book x h e =
        let (contact_id, e0, f0) = chain-ok (required "id" params) _ e in
        let (given, e1, f1) = chain-ok (optional "partial" params) _ f0 in
        let (existing, e2, f2) = chain-ok (known a call contact_id book) _ f1 in
        let (partial, e3, f3) =
          chain-ok (partial_fields (or_value given (all_but_id params))) _ f2 in
        update-IsConsistent a.base call.now book keeps contact_id partial x.0 x.1 h f3

    remove_contact-IsConsistent :
        (params : Json) (book : AddressBook.AddressBook) (x : String × AddressBook.AddressBook)
        → IsConsistent a.base book
        → remove_contact a call params book ≡ ok x
        → IsConsistent a.base x.1
    unfolding remove_contact
    remove_contact-IsConsistent params book x h e =
        let (contact_id, e0, f0) = chain-ok (required "id" params) _ e in
        let (book', e1, f1) = chain-ok (AddressBook.remove a.base call.now contact_id book) _ f0 in
        subst (λ y. IsConsistent a.base y.1) (ok-injective f1)
          (remove-IsConsistent a.base call.now book contact_id book' h e1)

    added-keeps :
        (s : Service) (x : Contact × AddressBook.AddressBook)
        → IsConsistent a.base x.1
        → HasGoodBook (added a call s x).1
    unfolding added
    added-keeps s (contact, book) h =
        maybe_broadcast_sync-keeps "add" (some contact) none
          (record s { manager = record s.manager { book = book } }) h

    changed-keeps :
        (s : Service) (x : Contact × AddressBook.AddressBook)
        → IsConsistent a.base x.1
        → HasGoodBook (changed a call s x).1
    unfolding changed
    changed-keeps s (contact, book) h =
        maybe_broadcast_sync-keeps "update" (some contact) none
          (record s { manager = record s.manager { book = book } }) h

    removed-keeps :
        (s : Service) (x : String × AddressBook.AddressBook)
        → IsConsistent a.base x.1
        → HasGoodBook (removed a call s x).1
    unfolding removed
    removed-keeps s (contact_id, book) h =
        maybe_broadcast_sync-keeps "remove" none (some contact_id)
          (record s { manager = record s.manager { book = book } }) h

    pub addressbook_add-keeps :
        (params : Json) (s : Service)
        → HasGoodBook s
        → HasGoodBook (addressbook_add a call params s).1
    unfolding addressbook_add
    addressbook_add-keeps params s h =
        finish-keeps s (added a call s) (add_contact a call params s.manager.book) h
          (λ x e. added-keeps s x (add_contact-IsConsistent params s.manager.book x h e))

    pub addressbook_update-keeps :
        (params : Json) (s : Service)
        → HasGoodBook s
        → HasGoodBook (addressbook_update a call params s).1
    unfolding addressbook_update
    addressbook_update-keeps params s h =
        finish-keeps s (changed a call s) (update_contact a call params s.manager.book) h
          (λ x e. changed-keeps s x (update_contact-IsConsistent params s.manager.book x h e))

    pub addressbook_remove-keeps :
        (params : Json) (s : Service)
        → HasGoodBook s
        → HasGoodBook (addressbook_remove a call params s).1
    unfolding addressbook_remove
    addressbook_remove-keeps params s h =
        finish-keeps s (removed a call s) (remove_contact a call params s.manager.book) h
          (λ x e. removed-keeps s x (remove_contact-IsConsistent params s.manager.book x h e))

    pub addressbook_reload-keeps : (s : Service) → HasGoodBook (addressbook_reload a call s).1
    unfolding addressbook_reload addressbook_status
    addressbook_reload-keeps s =
        reload-IsConsistent a.base keeps call.file_time call.now s.manager.book
