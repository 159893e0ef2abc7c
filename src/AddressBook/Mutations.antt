-- ===== src/AddressBook/Mutations.antt =====
-- `add`, `update` and `remove` of src/xmpp_p2p_chat/connection_service/addressbook.py: which calls
-- are refused, what the others change, and what every one of them keeps.
use serverless_xmpp.Base.{
  suc, String, List, ◌≡◌, refl, true, none, some, inl, inr, arith, if◌then◌else◌, is_some,
  Bool-cases, Option-cases, ◌==◌, All,
}
use serverless_xmpp.Base.Outcome.{ok, err, address_book_error}
use mathlib.Core.Path.{subst, sym, ◌∙◌}
use serverless_xmpp.Base.Outcome.{Error, Result-cases}
use serverless_xmpp.Models.Schema.{restamp-IsStable}
use serverless_xmpp.Models.JsonData.{str-injective}
use serverless_xmpp.Base.Table
use serverless_xmpp.Models.{Contact, Datetime}
use serverless_xmpp.Models.JsonData
use serverless_xmpp.Models.JsonData.{Fields, arr, str}
use serverless_xmpp.Models.Schema.{
  validate_fields, LowerKeepsJids, IsStable, validate_fields-IsStable, validate_fields-id,
}
use serverless_xmpp.AddressBook.Files.{good, meta}
use serverless_xmpp.AddressBook.Contacts.{find, HasUniqueIds, find-put, put-HasUniqueIds, All-put}
use serverless_xmpp.AddressBook.{
  Platform, AddressBook, contact_key, get, put, sorted_contacts, dump_all, hash_of, items_of,
  persist, notify, add, update, merged, remove,
}

module _ (p : Platform) where
  open p use {unicode, schema, sha256}

  -- Ids are unique, and each contact is one that its dump is validated to.
  pub record IsConsistent (book : AddressBook) : Type 0 where
    pub ids_unique : HasUniqueIds book.contacts
    pub stable : All (IsStable unicode schema) book.contacts

  -- The files and the hash say what the memory says.
  pub record IsPersisted (book : AddressBook) : Type 0 where
    pub primary :
        book.disk.primary
        ≡ some (good (arr (items_of p (dump_all p (sorted_contacts p book.contacts)))))
    pub hash : book.content_hash ≡ hash_of p book.contacts
    pub meta_file : book.disk.meta_file ≡ some (meta book.version book.content_hash)

  -- What a successful change of the contacts leads to, from `book` to `book'`.
  pub record IsChange (book book' : AddressBook) : Type 0 where
    pub persisted : IsPersisted book'
    pub version : book'.version ≡ suc book.version
    pub notified : book'.notified ≡ suc book.notified
    pub warnings : book'.warnings ≡ book.warnings
    pub fragments : book'.disk.fragments ≡ book.disk.fragments

  -- The common end of the three methods, for the contacts that they leave.
  abbrev finish : Datetime → List Contact → AddressBook → AddressBook
  finish now contacts book = notify p (persist p now (record book { contacts = contacts }))

  finish-IsChange :
      (now : Datetime) (contacts : List Contact) (book : AddressBook)
      → IsChange book (finish now contacts book)
  unfolding persist notify
  finish-IsChange now contacts book = record {
    persisted = record { primary = refl; hash = refl; meta_file = refl };
    version = refl;
    notified = refl;
    warnings = refl;
    fragments = refl;
  }

  finish-IsConsistent :
      (now : Datetime) (contacts : List Contact) (book : AddressBook)
      → HasUniqueIds contacts
      → All (IsStable unicode schema) contacts
      → IsConsistent (finish now contacts book)
  unfolding persist notify
  finish-IsConsistent now contacts book u s = record { ids_unique = u; stable = s }

  get-finish :
      (now : Datetime) (contacts : List Contact) (book : AddressBook) (k : String)
      → get k (finish now contacts book) ≡ find k contacts
  unfolding get persist notify
  get-finish now contacts book k = refl

  find-put-get :
      (c : Contact) (book : AddressBook) (k : String)
      → find k (put c book.contacts) ≡ (if c.id == k then some c else get k book)
  unfolding get
  find-put-get c book k = find-put k c book.contacts

  module _ (now : Datetime) (book : AddressBook) where
    -- `add` refuses an id that is there.
    pub add_refused :
        (c : Contact) → is_some (get c.id book) ≡ true → add p now c book ≡ err address_book_error
    unfolding add
    add_refused c h = rw h

    -- `add` of a new id stores the contact with both times set to now, keeps every other contact,
    -- counts the version up by one, writes the files, and notifies once.
    pub add_accepted :
        (c : Contact)
        → get c.id book ≡ none
        → (book' : AddressBook) × (add p now c book
            ≡ ok (record c { created_at = now; updated_at = now }, book'))
          × IsChange book book'
          × ((k : String)
              → get k book' ≡ (
                  if c.id == k
                  then some (record c { created_at = now; updated_at = now })
                  else get k book))
    unfolding add get
    add_accepted c h =
        let stamped = record c { created_at = now; updated_at = now } in
        (
          finish now (put stamped book.contacts) book,
          rw h,
          finish-IsChange now (put stamped book.contacts) book,
          λ k. unfold persist notify in find-put k stamped book.contacts,
        )

    -- `add` of a contact that its own dump validates to keeps the address book consistent: ids are
    -- unique, and every contact is one that its dump validates to.
    pub add-IsConsistent :
        (c : Contact) (c' : Contact) (book' : AddressBook)
        → IsStable unicode schema c
        → IsConsistent book
        → add p now c book ≡ ok (c', book')
        → IsConsistent book'
    unfolding add get
    add-IsConsistent c c' book' s w h = elim (Bool-cases (is_some (find c.id book.contacts))) [
      | inl there ↦ absurd (ground arith)
      | inr new ↦
          let stamped = record c { created_at = now; updated_at = now } in
          subst IsConsistent (ground arith) (
            finish-IsConsistent now (put stamped book.contacts) book
              (put-HasUniqueIds stamped book.contacts w.ids_unique)
              (All-put (IsStable unicode schema) stamped book.contacts
                (restamp-IsStable unicode schema c now now s) w.stable))
    ]

    -- `update` refuses an id that is not there, and values that do not validate.
    pub update_refused :
        (k : String) (partial : Fields)
        → (get k book ≡ none → update p now k partial book ≡ err address_book_error)
          × ((c : Contact) (e : Error)
              → get k book ≡ some c
              → validate_fields unicode schema (merged p now k partial c) ≡ err e
              → update p now k partial book ≡ err e)
    unfolding update
    update_refused k partial = (λ h. rw (h, update), λ c e h v. rw (h, update, v))

    merged-id :
        (k : String) (partial : Fields) (c : Contact)
        → JsonData.get "id" (merged p now k partial c) ≡ some (str k)
    unfolding merged
    merged-id k partial c = simp JsonData.get-set

    -- An update that is accepted replaces the one contact with a validated one under the same id,
    -- whatever id the new values name; it keeps every other contact, counts the version up by one,
    -- writes the files, and notifies once.
    pub update_accepted :
        (k : String) (partial : Fields) (c u : Contact)
        → get k book ≡ some c
        → validate_fields unicode schema (merged p now k partial c) ≡ ok u
        → (book' : AddressBook) × (update p now k partial book ≡ ok (u, book'))
          × (u.id ≡ k)
          × IsChange book book'
          × ((j : String) → get j book' ≡ (if k == j then some u else get j book))
    unfolding update
    update_accepted k partial c u h v =
        let same : u.id ≡ k = str-injective (
          sym (validate_fields-id unicode schema (merged p now k partial c) u v)
          ∙ merged-id k partial c) in
        (
          finish now (put u book.contacts) book,
          rw (h, update, v),
          same,
          finish-IsChange now (put u book.contacts) book,
          λ j.
              subst
                (λ i.
                  get j (finish now (put u book.contacts) book)
                  ≡ (if i == j then some u else get j book))
                same (get-finish now (put u book.contacts) book j ∙ find-put-get u book j),
        )

    -- `remove` refuses an id that is not there.
    pub remove_refused :
        (k : String) → get k book ≡ none → remove p now k book ≡ err address_book_error
    unfolding remove
    remove_refused k h = rw h

    -- A removal takes away the one contact, keeps every other, counts the version up by one, writes
    -- the files, and notifies once.
    pub remove_accepted :
        (k : String)
        → is_some (get k book) ≡ true
        → (book' : AddressBook) × (remove p now k book ≡ ok book')
          × IsChange book book'
          × ((j : String) → get j book' ≡ (if k == j then none else get j book))
    unfolding remove get
    remove_accepted k h = (
      finish now (Table.delete contact_key k book.contacts) book,
      rw h,
      finish-IsChange now (Table.delete contact_key k book.contacts) book,
      λ j.
          get-finish now (Table.delete contact_key k book.contacts) book j
          ∙ Table.find-delete contact_key j k book.contacts,
    )

    -- `remove` keeps the address book consistent.
    pub remove-IsConsistent :
        (k : String) (book' : AddressBook)
        → IsConsistent book
        → remove p now k book ≡ ok book'
        → IsConsistent book'
    unfolding remove get
    remove-IsConsistent k book' w h = elim (Bool-cases (is_some (find k book.contacts))) [
      | inl there ↦ subst IsConsistent (ground arith) (
          finish-IsConsistent now (Table.delete contact_key k book.contacts) book
            (Table.delete-HasUniqueKeys contact_key k book.contacts w.ids_unique)
            (Table.All-delete contact_key (IsStable unicode schema) k book.contacts w.stable))
      | inr missing ↦ absurd (ground arith)
    ]

    -- `update` keeps the address book consistent, whatever the new values are, if lowering keeps what
    -- the pattern of JIDs looks for.
    pub update-IsConsistent :
        LowerKeepsJids unicode schema
        → (k : String) (partial : Fields) (u : Contact) (book' : AddressBook) → IsConsistent book
        → update p now k partial book ≡ ok (u, book')
        → IsConsistent book'
    unfolding update get
    update-IsConsistent keeps k partial u book' w h = elim (Option-cases (find k book.contacts)) [
      | inl missing ↦ absurd (ground arith)
      | inr (c, found) ↦
          elim (Result-cases (validate_fields unicode schema (merged p now k partial c))) [
            | inl (v, valid) ↦ subst IsConsistent (ground arith) (
                finish-IsConsistent now (put v book.contacts) book
                  (put-HasUniqueIds v book.contacts w.ids_unique)
                  (All-put (IsStable unicode schema) v book.contacts
                    (validate_fields-IsStable unicode schema keeps (merged p now k partial c) v
                      valid)
                    w.stable))
            | inr (e, invalid) ↦ absurd (ground arith)
          ]
    ]
