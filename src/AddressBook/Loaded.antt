-- ===== src/AddressBook/Loaded.antt =====
-- What the files can lead to, in src/xmpp_p2p_chat/connection_service/addressbook.py: whatever they
-- hold, the address book in memory is consistent.
use serverless_xmpp.Base.{
  true, false, ◌⊎◌, ◌∙◌, ℕ, suc, String, List, [], ◌∷◌, ◌++◌, ◌≡◌, refl, arith, Option, none, some,
  is_some, inl, inr, Bool-cases, Option-cases,
}
use serverless_xmpp.Base.Outcome.{Result, ok, err}
use serverless_xmpp.Models.{Datetime, Contact}
use serverless_xmpp.Models.JsonData.{Json, null, bool, int, number, str, arr, obj, Items, nil, cons}
use serverless_xmpp.Models.Schema.{
  model_validate, LowerKeepsJids, IsStable, validate_fields-IsStable,
}
use serverless_xmpp.AddressBook.Files.{File, malformed, good, MetaFile, unreadable, meta}
use serverless_xmpp.AddressBook.Contacts.{put-HasUniqueIds, All-put}
use serverless_xmpp.AddressBook.Mutations.{IsConsistent}
use serverless_xmpp.AddressBook.Loading.{
  cleared, import_bundled, load_files, import_when_empty, load, load_rest, process_startup, reload,
  warn, load_validated, load_entries, load_value, load_primary, load_fragments, load_all_fragments,
  load_meta, check_fingerprint, check_fingerprints,
}
use serverless_xmpp.AddressBook.{
  Bool, notify, recompute_hash, save_meta, malformed_file, Platform, AddressBook, get,
}

List-cases {ℓ} : {A : Type ℓ} (xs : List A) → (xs ≡ []) ⊎ ((x : A) × (ys : List A) × (xs ≡ x ∷ ys))
List-cases [] = inl refl
List-cases (x ∷ xs) = inr (x, xs, refl)

module _ (p : Platform) (keeps : LowerKeepsJids p.unicode p.schema) where
  pub model_validate-IsStable :
      (v : Json) (c : Contact)
      → model_validate p.unicode p.schema v ≡ ok c
      → IsStable p.unicode p.schema c
  unfolding model_validate
  model_validate-IsStable (obj d) c h = validate_fields-IsStable p.unicode p.schema keeps d c h
  model_validate-IsStable null c h = absurd (cc h)
  model_validate-IsStable (bool b) c h = absurd (cc h)
  model_validate-IsStable (int n) c h = absurd (cc h)
  model_validate-IsStable (number t) c h = absurd (cc h)
  model_validate-IsStable (str t) c h = absurd (cc h)
  model_validate-IsStable (arr items) c h = absurd (cc h)

  load_validated-IsConsistent :
      (source : String) (idx : ℕ) (v : Json) (r : Result Contact) (book : AddressBook)
      → model_validate p.unicode p.schema v ≡ r
      → IsConsistent p book
      → IsConsistent p (load_validated p source idx r book)
  unfolding load_validated
  load_validated-IsConsistent source idx v (err e) book same h = record {
    ids_unique = h.ids_unique;
    stable = h.stable;
  }
  load_validated-IsConsistent source idx v (ok c) book same h =
      elim (Bool-cases (is_some (get c.id book))) [
        | inl e ↦ rw (load_validated, e) (record { ids_unique = h.ids_unique; stable = h.stable })
        | inr e ↦
            rw (load_validated, e)
              (record {
                ids_unique = put-HasUniqueIds c book.contacts h.ids_unique;
                stable =
                    All-put (IsStable p.unicode p.schema) c book.contacts
                      (model_validate-IsStable v c same) h.stable;
              })
      ]

  load_entries-IsConsistent :
      (source : String) (idx : ℕ) (raw : Items) (book : AddressBook)
      → IsConsistent p book
      → IsConsistent p (load_entries p source idx raw book)
  unfolding load_entries
  load_entries-IsConsistent source idx nil book h = h
  load_entries-IsConsistent source idx (cons v raw) book h =
      load_entries-IsConsistent source (suc idx) raw
        (load_validated p source idx (model_validate p.unicode p.schema v) book)
        (load_validated-IsConsistent source idx v (model_validate p.unicode p.schema v) book refl h)

  load_value-IsConsistent :
      (source : String) (v : Json) (book : AddressBook)
      → IsConsistent p book
      → IsConsistent p (load_value p source v book)
  unfolding load_value
  load_value-IsConsistent source (arr raw) book h = load_entries-IsConsistent source 0 raw book h
  load_value-IsConsistent source null book h = record {
    ids_unique = h.ids_unique;
    stable = h.stable;
  }
  load_value-IsConsistent source (bool b) book h = record {
    ids_unique = h.ids_unique;
    stable = h.stable;
  }
  load_value-IsConsistent source (int n) book h = record {
    ids_unique = h.ids_unique;
    stable = h.stable;
  }
  load_value-IsConsistent source (number t) book h = record {
    ids_unique = h.ids_unique;
    stable = h.stable;
  }
  load_value-IsConsistent source (str t) book h = record {
    ids_unique = h.ids_unique;
    stable = h.stable;
  }
  load_value-IsConsistent source (obj d) book h = record {
    ids_unique = h.ids_unique;
    stable = h.stable;
  }

  load_primary-IsConsistent :
      (mtime : Datetime) (file : Option File) (book : AddressBook)
      → IsConsistent p book
      → IsConsistent p (load_primary p mtime file book)
  unfolding load_primary
  load_primary-IsConsistent mtime none book h = record {
    ids_unique = h.ids_unique;
    stable = h.stable;
  }
  load_primary-IsConsistent mtime (some malformed) book h = record {
    ids_unique = h.ids_unique;
    stable = h.stable;
  }
  load_primary-IsConsistent mtime (some (good raw)) book h =
      let loaded = load_value-IsConsistent "primary" raw book h in
      record { ids_unique = loaded.ids_unique; stable = loaded.stable }

  load_fragments-IsConsistent :
      (files : List (String × File)) (book : AddressBook)
      → IsConsistent p book
      → IsConsistent p (load_fragments p files book).1
  unfolding load_fragments
  load_fragments-IsConsistent [] book h = h
  load_fragments-IsConsistent ((name, malformed) ∷ files) book h =
      load_fragments-IsConsistent files
        (warn (malformed_file name) (record book {
          fragment_files = book.fragment_files ++ name ∷ [];
          disk = record book.disk { quarantined = book.disk.quarantined ++ name ∷ [] };
        }))
        (record { ids_unique = h.ids_unique; stable = h.stable })
  load_fragments-IsConsistent ((name, good raw) ∷ files) book h =
      let named : AddressBook = record book { fragment_files = book.fragment_files ++ name ∷ [] } in
      load_fragments-IsConsistent files (load_value p name raw named) (
        load_value-IsConsistent name raw named
          (record { ids_unique = h.ids_unique; stable = h.stable }))

  load_all_fragments-IsConsistent :
      (files : Option (List (String × File))) (book : AddressBook)
      → IsConsistent p book
      → IsConsistent p (load_all_fragments p files book)
  unfolding load_all_fragments
  load_all_fragments-IsConsistent none book h = h
  load_all_fragments-IsConsistent (some files) book h =
      let loaded = load_fragments-IsConsistent files book h in
      record { ids_unique = loaded.ids_unique; stable = loaded.stable }

  load_meta-contacts :
      (file : Option MetaFile) (book : AddressBook)
      → (load_meta p file book).contacts ≡ book.contacts
  unfolding load_meta
  load_meta-contacts none book = refl
  load_meta-contacts (some unreadable) book = refl
  load_meta-contacts (some (meta version stored)) book = refl

  check_fingerprint-contacts :
      (c : Contact) (book : AddressBook) → (check_fingerprint p c book).contacts ≡ book.contacts
  unfolding check_fingerprint
  check_fingerprint-contacts c book = elim (Option-cases c.direct) [
    | inl e ↦ rw e refl
    | inr (direct, e) ↦ rw e (ground arith)
  ]

  check_fingerprints-contacts :
      (cs : List Contact) (book : AddressBook)
      → (check_fingerprints p cs book).contacts ≡ book.contacts
  unfolding check_fingerprints
  check_fingerprints-contacts [] book = refl
  check_fingerprints-contacts (c ∷ cs) book =
      check_fingerprints-contacts cs (check_fingerprint p c book)
      ∙ check_fingerprint-contacts c book

  of_contacts :
      (book book' : AddressBook)
      → book'.contacts ≡ book.contacts
      → IsConsistent p book
      → IsConsistent p book'
  of_contacts book book' same h = record {
    ids_unique = rw same h.ids_unique;
    stable = rw same h.stable;
  }

  load_rest-IsConsistent :
      (fragments : Option (List (String × File))) (book : AddressBook)
      → IsConsistent p book
      → IsConsistent p (load_rest p fragments book)
  unfolding load_rest recompute_hash
  load_rest-IsConsistent fragments book h =
      let loaded = load_all_fragments p fragments book in
      let hashed = recompute_hash p loaded in
      let versioned = load_meta p hashed.disk.meta_file hashed in
      of_contacts loaded (load_rest p fragments book)
        (check_fingerprints-contacts versioned.contacts versioned
          ∙ load_meta-contacts hashed.disk.meta_file hashed)
        (load_all_fragments-IsConsistent fragments book h)

  -- Loading makes a consistent address book of any files, whatever was in memory before.
  pub load-IsConsistent :
      (mtime now : Datetime) (book : AddressBook) → IsConsistent p (load p mtime now book)
  unfolding load load_files
  load-IsConsistent mtime now book =
      let from_primary = load_primary p mtime book.disk.primary (cleared p now book) in
      load_rest-IsConsistent from_primary.disk.fragments from_primary (
        load_primary-IsConsistent mtime book.disk.primary (cleared p now book)
          (record { ids_unique = tt; stable = tt }))

  pub reload-IsConsistent :
      (mtime now : Datetime) (book : AddressBook) → IsConsistent p (reload p mtime now book)
  unfolding reload notify save_meta
  reload-IsConsistent mtime now book =
      of_contacts (load p mtime now book) (reload p mtime now book) refl
        (load-IsConsistent mtime now book)

  import_when_empty-IsConsistent :
      (import_if_empty : Bool) (bundled : Option (String × File)) (mtime now : Datetime)
      (book : AddressBook)
      → IsConsistent p book
      → IsConsistent p (import_when_empty p import_if_empty bundled mtime now book)
  unfolding import_when_empty
  import_when_empty-IsConsistent false bundled mtime now book h = h
  import_when_empty-IsConsistent true none mtime now book h = h
  import_when_empty-IsConsistent true (some file) mtime now book h =
      elim (List-cases book.contacts) [
        | inl e ↦
            rw (import_when_empty, e) (load-IsConsistent mtime now (import_bundled p file book))
        | inr (c, cs, e) ↦ rw (import_when_empty, e) h
      ]

  -- The start makes a consistent address book, whatever the files and the bundled file hold, and
  -- whether the bundled one is imported or not.
  pub process_startup-IsConsistent :
      (bundled : Option (String × File)) (import_if_empty : Bool) (mtime now : Datetime)
      (book : AddressBook)
      → IsConsistent p (process_startup p bundled import_if_empty mtime now book)
  unfolding process_startup save_meta
  process_startup-IsConsistent bundled import_if_empty mtime now book =
      let started = import_when_empty p import_if_empty bundled mtime now (load p mtime now book) in
      of_contacts started (process_startup p bundled import_if_empty mtime now book) refl (
        import_when_empty-IsConsistent import_if_empty bundled mtime now (load p mtime now book)
          (load-IsConsistent mtime now book))
