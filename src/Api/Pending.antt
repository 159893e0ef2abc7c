-- ===== src/Api/Pending.antt =====
-- Pending updates that a client of src/xmpp_p2p_chat/connection_service/api.py applies or rejects
-- keep the address book consistent.
use serverless_xmpp.Base.{String, Bool, true, false, ◌≡◌, refl, sym, arith, inl, inr, Option-cases}
use mathlib.Core.Path.{subst}
use serverless_xmpp.Base.Outcome.{Result, ok, err, chain-ok, ok-injective, ◌>>=◌}
use serverless_xmpp.Models.{AddressBookSyncPending}
use serverless_xmpp.Models.Schema.{LowerKeepsJids}
use serverless_xmpp.Models.JsonData.{Json, null, bool, int, number, str, arr, obj}
use serverless_xmpp.Persistence.{get_sync_pending, delete_sync_pending}
use serverless_xmpp.AddressBook as AddressBook
use serverless_xmpp.AddressBook.Mutations.{IsConsistent}
use serverless_xmpp.AddressBookSync as AddressBookSync
use serverless_xmpp.AddressBookSync.{
  SyncService, reject_pending, apply_payload, apply_row, with_book,
}
use serverless_xmpp.AddressBookSync.Applying.{apply_payload-IsConsistent}
use serverless_xmpp.Api.Service.{ApiPlatform, Call, Service, sync_service, with_sync, required}
use serverless_xmpp.Api.Consistency.{HasGoodBook, finish-keeps}
use serverless_xmpp.Api.SyncMethods.{
  apply_pending_sync_update, reject_pending_sync_update, addressbook_apply_pending_update,
  found_or_not,
}
use serverless_xmpp.Api.ChatMethods.{applied}

module _ (a : ApiPlatform) (call : Call) (keeps : LowerKeepsJids a.base.unicode a.base.schema) where
  with_book-book :
      (s s' : SyncService) (r : Result AddressBook.AddressBook)
      → ((book : AddressBook.AddressBook) → r ≡ ok book → IsConsistent a.base book)
      → with_book a.base call.now s r ≡ ok s'
      → IsConsistent a.base s'.book
  with_book-book s s' (ok book) good e =
      subst (λ x. IsConsistent a.base x.book) (ok-injective e) (good book refl)
  with_book-book s s' (err e) good h = absurd (cc h)

  apply_row-IsConsistent :
      (payload : Json) (row : AddressBookSyncPending) (s s' : SyncService)
      → row.payload ≡ payload
      → IsConsistent a.base s.book
      → apply_row a.base call.now row s ≡ ok s'
      → IsConsistent a.base s'.book
  unfolding apply_row
  apply_row-IsConsistent (obj d) row s s' same h e =
      let made : with_book a.base call.now s (apply_payload a.base call.now d s.book) ≡ ok s' =
        ground arith in
      with_book-book s s' (apply_payload a.base call.now d s.book)
        (λ book f. apply_payload-IsConsistent a.base call.now keeps d s.book book h f) made
  apply_row-IsConsistent null row s s' same h e = absurd (ground arith)
  apply_row-IsConsistent (bool b) row s s' same h e = absurd (ground arith)
  apply_row-IsConsistent (int n) row s s' same h e = absurd (ground arith)
  apply_row-IsConsistent (number t) row s s' same h e = absurd (ground arith)
  apply_row-IsConsistent (str t) row s s' same h e = absurd (ground arith)
  apply_row-IsConsistent (arr l) row s s' same h e = absurd (ground arith)

  removing : String → SyncService → Result (Bool × SyncService)
  removing id s = ok (true, record s { db = delete_sync_pending id s.db })

  apply_pending-IsConsistent :
      (id : String) (s : SyncService) (x : Bool × SyncService)
      → IsConsistent a.base s.book
      → AddressBookSync.apply_pending a.base call.now id s ≡ ok x
      → IsConsistent a.base x.1.book
  unfolding AddressBookSync.apply_pending removing
  apply_pending-IsConsistent id s x h e = elim (Option-cases (get_sync_pending id s.db)) [
    | inl f ↦
        let kept : ok (false, s) ≡ ok x = ground arith in
        subst (λ y. IsConsistent a.base y.1.book) (ok-injective kept) h
    | inr (row, f) ↦
        let applied : (apply_row a.base call.now row s >>= removing id) ≡ ok x = ground arith in
        let (s', e', f') = chain-ok (apply_row a.base call.now row s) (removing id) applied in
        subst (λ y. IsConsistent a.base y.1.book) (ok-injective f')
          (apply_row-IsConsistent row.payload row s s' refl h e')
  ]

  taken : Service → Bool × SyncService → Result (Bool × Service)
  taken s applied = ok (applied.0, with_sync s applied.1)

  applied_pending-keeps :
      (id : String) (s : Service) (x : Bool × Service)
      → HasGoodBook a call s
      → apply_pending_sync_update a call id s ≡ ok x
      → HasGoodBook a call x.1
  unfolding apply_pending_sync_update taken
  applied_pending-keeps id s x h e = elim (Option-cases s.sync) [
    | inl f ↦
        let kept : ok (false, s) ≡ ok x = ground arith in
        subst (λ y. HasGoodBook a call y.1) (ok-injective kept) h
    | inr (state, f) ↦
        let run = AddressBookSync.apply_pending a.base call.now id (sync_service state s) in
        let made : (run >>= taken s) ≡ ok x = ground arith in
        let (y, e', f') = chain-ok run (taken s) made in
        subst (λ z. HasGoodBook a call z.1) (ok-injective f')
          (apply_pending-IsConsistent id (sync_service state s) y h e')
  ]

  pub addressbook_apply_pending_update-keeps :
      (params : Json) (s : Service)
      → HasGoodBook a call s
      → HasGoodBook a call (addressbook_apply_pending_update a call params s).1
  unfolding addressbook_apply_pending_update
  addressbook_apply_pending_update-keeps params s h =
      finish-keeps a call s (λ (x : Bool × Service). (found_or_not x.0, x.1))
        (required "id" params >>= λ id. apply_pending_sync_update a call id s) h
        (λ x e.
          let (id, e', f) =
            chain-ok (required "id" params) (λ id. apply_pending_sync_update a call id s) e in
          applied_pending-keeps id s x h f)

  reject_pending-book : (id : String) (s : SyncService) → (reject_pending id s).1.book ≡ s.book
  unfolding reject_pending
  reject_pending-book id s = elim (Option-cases (get_sync_pending id s.db)) [
    | inl e ↦ rw (reject_pending, e) refl
    | inr (row, e) ↦ rw (reject_pending, e) refl
  ]

  pub rejected-keeps :
      (id : String) (s : Service)
      → HasGoodBook a call s
      → HasGoodBook a call (reject_pending_sync_update a call id s).1
  unfolding reject_pending_sync_update
  rejected-keeps id s h = elim (Option-cases s.sync) [
    | inl e ↦ rw e h
    | inr (state, e) ↦
        rw (reject_pending_sync_update, e)
          (subst (IsConsistent a.base) (sym (reject_pending-book id (sync_service state s))) h)
  ]
