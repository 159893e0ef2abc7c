-- ===== src/AddressBookSync/Applying.antt =====
-- Updates of contacts that are applied to the address book, in
-- src/xmpp_p2p_chat/connection_service/addressbook_sync.py.
use mathlib.Core.Path.{subst}
use serverless_xmpp.Base.{
  ◌&&◌, String, true, ◌≡◌, refl, arith, some, none, Option, inl, inr, Bool-cases, is_some,
  if◌then◌else◌, ◌==◌,
}
use serverless_xmpp.Base.Outcome.{ok-injective, ok, err, Result, Result-cases}
use serverless_xmpp.Base.Table
use serverless_xmpp.Models.{AddressBookSyncPending, Datetime, Contact}
use serverless_xmpp.Models.JsonData
use serverless_xmpp.Models.JsonData.{Json, Fields, str, obj, null, bool, int, number, arr}
use serverless_xmpp.Models.Schema.{
  LowerKeepsJids, IsStable, model_validate, validate_fields-IsStable,
}
use serverless_xmpp.Persistence.{get_sync_pending, delete_sync_pending, sync_key}
use serverless_xmpp.AddressBook.{Platform, AddressBook, add, update, remove, get}
use serverless_xmpp.AddressBook.Mutations.{
  IsConsistent, add-IsConsistent, update-IsConsistent, remove-IsConsistent,
}
use serverless_xmpp.AddressBookSync.{
  SyncService, attempt, second, apply_add, apply_update, apply_remove, apply_payload, validated,
  apply_row, apply_pending, reject_pending, is_text, is_truthy,
}

module _ (p : Platform) (now : Datetime) (keeps : LowerKeepsJids p.unicode p.schema) where
  -- A change that leads to consistent books, if it is made.
  abbrev Keeps : Result AddressBook → Type 0
  Keeps r = (book' : AddressBook) → r ≡ ok book' → IsConsistent p book'

  attempt-IsConsistent :
      (r : Result AddressBook) (book : AddressBook)
      → IsConsistent p book
      → Keeps r
      → IsConsistent p (attempt r book)
  unfolding attempt
  attempt-IsConsistent (ok book') book w k = k book' refl
  attempt-IsConsistent (err e) book w k = w

  validated-IsStable :
      (v : Option Json) (c : Contact) → validated p now v ≡ ok c → IsStable p.unicode p.schema c
  unfolding model_validate
  validated-IsStable none c h = absurd (cc h)
  validated-IsStable (some (obj d)) c h = validate_fields-IsStable p.unicode p.schema keeps d c h
  validated-IsStable (some null) c h = absurd (cc h)
  validated-IsStable (some (bool b)) c h = absurd (cc h)
  validated-IsStable (some (int n)) c h = absurd (cc h)
  validated-IsStable (some (number t)) c h = absurd (cc h)
  validated-IsStable (some (str t)) c h = absurd (cc h)
  validated-IsStable (some (arr l)) c h = absurd (cc h)

  transfer : (x y : AddressBook) → ok x ≡ ok y → IsConsistent p x → IsConsistent p y
  transfer x y e w = subst (IsConsistent p) (ok-injective e) w

  second-inversion :
      (r : Result (Contact × AddressBook)) (book' : AddressBook)
      → second p now r ≡ ok book'
      → (c : Contact) × (r ≡ ok (c, book'))
  second-inversion (err e) book' h = absurd (cc h)
  second-inversion (ok (c, b)) book' h = (c, cc h)

  update-Keeps :
      (k : String) (d : Fields) (book : AddressBook)
      → IsConsistent p book
      → Keeps (second p now (update p now k d book))
  update-Keeps k d book w book' h =
      let (c, e) = second-inversion (update p now k d book) book' h in
      update-IsConsistent p now book keeps k d c book' w e

  add-Keeps :
      (c : Contact) (book : AddressBook)
      → IsStable p.unicode p.schema c
      → IsConsistent p book
      → Keeps (second p now (add p now c book))
  add-Keeps c book s w book' h =
      let (c', e) = second-inversion (add p now c book) book' h in
      add-IsConsistent p now book c c' book' s w e

  apply_add-Keeps :
      (v : Option Json) (book : AddressBook)
      → IsConsistent p book
      → Keeps (apply_add p now (validated p now v) book)
  apply_add-Keeps v book w book' h = elim (Result-cases (validated p now v)) [
    | inr (x, e) ↦ absurd (unfold apply_add in ground arith)
    | inl (c, e) ↦ elim (Bool-cases (is_some (get c.id book))) [
      | inl there ↦
          update-Keeps c.id (p.schema.dump c) book w book' (unfold apply_add in ground arith)
      | inr new ↦
          add-Keeps c book (validated-IsStable v c e) w book' (unfold apply_add in ground arith)
    ]
  ]

  apply_update-Keeps :
      (v : Option Json) (book : AddressBook)
      → IsConsistent p book
      → Keeps (apply_update p now (validated p now v) book)
  apply_update-Keeps v book w book' h = elim (Result-cases (validated p now v)) [
    | inr (x, e) ↦ absurd (unfold apply_update in ground arith)
    | inl (c, e) ↦
        update-Keeps c.id (p.schema.dump c) book w book' (unfold apply_update in ground arith)
  ]

  apply_remove-Keeps :
      (v : Option Json) (book : AddressBook)
      → IsConsistent p book
      → Keeps (apply_remove p now v book)
  unfolding apply_remove
  apply_remove-Keeps none book w book' h = subst (IsConsistent p) (ok-injective h) w
  apply_remove-Keeps (some null) book w book' h = subst (IsConsistent p) (ok-injective h) w
  apply_remove-Keeps (some (bool b)) book w book' h = subst (IsConsistent p) (ok-injective h) w
  apply_remove-Keeps (some (int n)) book w book' h = subst (IsConsistent p) (ok-injective h) w
  apply_remove-Keeps (some (number t)) book w book' h = subst (IsConsistent p) (ok-injective h) w
  apply_remove-Keeps (some (arr l)) book w book' h = absurd (cc h)
  apply_remove-Keeps (some (obj d)) book w book' h = absurd (cc h)
  apply_remove-Keeps (some (str k)) book w book' h =
      let left =
        attempt-IsConsistent (remove p now k book) book w
          (λ b e. remove-IsConsistent p now book k b w e) in
      elim (Bool-cases (is_some (get k book))) [
        | inl there ↦ subst (IsConsistent p) (ground arith) left
        | inr missing ↦ subst (IsConsistent p) (ground arith) w
      ]

  -- Whatever a payload says, applying it keeps the address book consistent, if lowering keeps what
  -- the pattern of JIDs looks for.
  pub apply_payload-IsConsistent :
      (payload : Fields) (book book' : AddressBook)
      → IsConsistent p book
      → apply_payload p now payload book ≡ ok book'
      → IsConsistent p book'
  apply_payload-IsConsistent payload book book' w h =
      let action = JsonData.get "action" payload in
      let contact = JsonData.get "contact" payload in
      let contact_id = JsonData.get "contact_id" payload in
      elim (Bool-cases (is_text "add" action && is_truthy contact)) [
        | inl adds ↦
            transfer (attempt (apply_add p now (validated p now contact) book) book) book'
              (unfold apply_payload in ground arith)
              (attempt-IsConsistent (apply_add p now (validated p now contact) book) book w
                (apply_add-Keeps contact book w))
        | inr adds ↦ elim (Bool-cases (is_text "update" action && is_truthy contact)) [
          | inl updates ↦
              transfer (attempt (apply_update p now (validated p now contact) book) book) book'
                (unfold apply_payload in ground arith)
                (attempt-IsConsistent (apply_update p now (validated p now contact) book) book w
                  (apply_update-Keeps contact book w))
          | inr updates ↦ elim (Bool-cases (is_text "remove" action && is_truthy contact_id)) [
            | inl removes ↦
                apply_remove-Keeps contact_id book w book' (unfold apply_payload in ground arith)
            | inr removes ↦ transfer book book' (unfold apply_payload in ground arith) w
          ]
        ]
      ]

-- A decision on a stored update that can be applied takes away that row alone: a rejection leaves the
-- address book as it is, and an acceptance leads to the one that the payload leads to.
pub decision_lem :
    (p : Platform) (now : Datetime) (k : String) (s : SyncService) (row : AddressBookSyncPending)
    (d : Fields) (book' : AddressBook)
    → get_sync_pending k s.db ≡ some row
    → row.payload ≡ obj d
    → apply_payload p now d s.book ≡ ok book'
    → (reject_pending k s ≡ (true, record s { db = delete_sync_pending k s.db }))
      × (apply_pending p now k s
          ≡ ok (true, record s { book = book'; db = delete_sync_pending k s.db }))
      × ((j : String)
          → get_sync_pending j (delete_sync_pending k s.db)
            ≡ (if k == j then none else get_sync_pending j s.db))
unfolding reject_pending apply_pending apply_row
decision_lem p now k s row d book' h o a = (
  rw (reject_pending, h) refl,
  rw (apply_pending, h, apply_row, o, a) refl,
  λ j.
      unfold get_sync_pending delete_sync_pending in
      Table.find-delete sync_key j k s.db.sync_pending,
)
