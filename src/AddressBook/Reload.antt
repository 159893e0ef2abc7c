-- ===== src/AddressBook/Reload.antt =====
-- What a fresh `load` makes of the files that the mutations wrote
-- (src/xmpp_p2p_chat/connection_service/addressbook.py).
use mathlib.Core.List.{append-nil, append_assoc}
use mathlib.Core.Path.{subst, sym, ◌∙◌}
use serverless_xmpp.Base.{
  ℕ, suc, String, List, [], ◌∷◌, ◌++◌, ◌≡◌, refl, ap, Option, none, some, ◌⊎◌, arith, eq_iff, All,
  text_leb_total, text_leb_trans,
}
use serverless_xmpp.Base.Outcome.{ok}
use serverless_xmpp.Base.Sorting.{sort_by, sort_by-IsSorted, sort_by_of_IsSorted, All-sort_by}
use serverless_xmpp.Models.{Contact, Datetime}
use serverless_xmpp.Models.JsonData.{arr}
use serverless_xmpp.Models.Schema.{model_validate-obj, IsStable}
use serverless_xmpp.AddressBook.Files.{Warning, Warning, File, good, meta}
use serverless_xmpp.AddressBook.Contacts.{
  find, HasUniqueIds, put_absent, find-append_left, find-sort_by, sort_by-HasUniqueIds,
}
use serverless_xmpp.AddressBook.Loading.{
  load_fragments, load_validated, load_entries, load_value, load_primary, load_all_fragments,
  load_meta, check_fingerprint, check_fingerprints, cleared, load_rest, load_files, load,
}
use serverless_xmpp.AddressBook.Mutations.{IsConsistent, IsPersisted}
use serverless_xmpp.AddressBook.{
  compute_content_hash, Platform, AddressBook, by_name, get, sorted_contacts, dump_all, hash_of,
  items_of, recompute_hash,
}

module _ (p : Platform) where
  open p use {unicode, schema, sha256}

  load_validated_new :
      (source : String) (idx : ℕ) (c : Contact) (book : AddressBook)
      → find c.id book.contacts ≡ none
      → load_validated p source idx (ok c) book ≡ record book { contacts = book.contacts ++ c ∷ [] }
  unfolding load_validated get
  load_validated_new source idx c book h = rw (h, put_absent c book.contacts h)

  -- The entries that were dumped from distinct, stable contacts are all loaded, in their order.
  load_entries-dump_all :
      (source : String) (idx : ℕ) (cs : List Contact) (book : AddressBook)
      → All (IsStable unicode schema) cs
      → HasUniqueIds (book.contacts ++ cs)
      → load_entries p source idx (items_of p (dump_all p cs)) book
        ≡ record book { contacts = book.contacts ++ cs }
  unfolding load_entries dump_all
  load_entries-dump_all source idx [] book s u =
      ap (λ l. record book { contacts = l }) (sym (append-nil book.contacts))
  load_entries-dump_all source idx (c ∷ cs) book s u =
      ap (load_entries p source (suc idx) (items_of p (dump_all p cs))) (
        ap (λ r. load_validated p source idx r book)
          (model_validate-obj unicode schema (schema.dump c) ∙ s.0)
        ∙ load_validated_new source idx c book (find-append_left book.contacts c cs u))
      ∙ load_entries-dump_all source (suc idx) cs
          (record book { contacts = book.contacts ++ c ∷ [] }) s.1
          (subst HasUniqueIds (sym (append_assoc book.contacts (c ∷ []) cs)) u)
      ∙ ap (λ l. record book { contacts = l }) (append_assoc book.contacts (c ∷ []) cs)

  -- The check of the fingerprints adds warnings and nothing else.
  check_fingerprint-warnings :
      (c : Contact) (book : AddressBook)
      → (ws : List Warning) × (check_fingerprint p c book ≡ record book { warnings = ws })
  unfolding check_fingerprint
  check_fingerprint-warnings c book = ((check_fingerprint p c book).warnings, ground arith)

  check_fingerprints-warnings :
      (cs : List Contact) (book : AddressBook)
      → (ws : List Warning) × (check_fingerprints p cs book ≡ record book { warnings = ws })
  unfolding check_fingerprints
  check_fingerprints-warnings [] book = (book.warnings, refl)
  check_fingerprints-warnings (c ∷ cs) book =
      let (ws, e) = check_fingerprint-warnings c book in
      let (vs, f) = check_fingerprints-warnings cs (record book { warnings = ws }) in (vs, rw e f)

  -- No fragment file is there.
  abbrev pub HasNoFragments : AddressBook → Type 0
  HasNoFragments book = (book.disk.fragments ≡ none) ⊎ (book.disk.fragments ≡ some [])

  sorted_contacts_idem :
      (cs : List Contact) → sorted_contacts p (sorted_contacts p cs) ≡ sorted_contacts p cs
  unfolding sorted_contacts
  sorted_contacts_idem cs = sort_by_of_IsSorted (by_name p) (sort_by (by_name p) cs) (
      sort_by-IsSorted (by_name p)
        (λ c d. text_leb_total (unicode.lower c.name) (unicode.lower d.name))
        (λ c d e.
          text_leb_trans (unicode.lower c.name) (unicode.lower d.name) (unicode.lower e.name))
        cs)

  hash_of-sorted_contacts : (cs : List Contact) → hash_of p (sorted_contacts p cs) ≡ hash_of p cs
  unfolding hash_of
  hash_of-sorted_contacts cs =
      ap (λ l. compute_content_hash sha256 (dump_all p l)) (sorted_contacts_idem cs)

  load_primary-dump_all :
      (mtime : Datetime) (cs : List Contact) (started : AddressBook)
      → started.contacts ≡ []
      → All (IsStable unicode schema) cs
      → HasUniqueIds cs
      → load_primary p mtime (some (good (arr (items_of p (dump_all p cs))))) started
        ≡ record started { contacts = cs; modified_at = some mtime }
  unfolding load_primary load_value
  load_primary-dump_all mtime cs started e s u =
      ap (λ (b : AddressBook). record b { modified_at = some mtime })
        (load_entries-dump_all "primary" 0 cs started s (rw e u)
          ∙ ap (λ l. record started { contacts = l ++ cs }) e)

  load_all_fragments-none :
      (book : AddressBook) (fragments : Option (List (String × File)))
      → fragments ≡ book.disk.fragments
      → (fragments ≡ none) ⊎ (fragments ≡ some [])
      → load_all_fragments p fragments book ≡ book
  unfolding load_all_fragments load_fragments
  load_all_fragments-none book fragments e h = ground (arith, e)

  load_meta_same :
      (version : ℕ) (book : AddressBook)
      → load_meta p (some (meta version book.content_hash)) book ≡ record book { version = version }
  unfolding load_meta
  load_meta_same version book = ground (arith, eq_iff book.content_hash book.content_hash)

  get-sorted_contacts :
      (k : String) (book : AddressBook)
      → HasUniqueIds book.contacts
      → find k (sorted_contacts p book.contacts) ≡ find k book.contacts
  unfolding sorted_contacts
  get-sorted_contacts k book u = find-sort_by (by_name p) k book.contacts u

  -- The address book that a load of its own files gives, up to the warnings.
  abbrev pub reloaded : Datetime → Datetime → List Warning → AddressBook → AddressBook
  reloaded mtime now ws book = record book {
    contacts = sorted_contacts p book.contacts;
    warnings = ws;
    fragment_files = [];
    loaded_at = some now;
    modified_at = some mtime;
  }

  load_rest-reloaded :
      (mtime now : Datetime) (book : AddressBook)
      → IsPersisted p book
      → HasNoFragments book
      → (ws : List Warning) × (load_rest p book.disk.fragments (record (cleared p now book) {
        contacts = sorted_contacts p book.contacts;
        modified_at = some mtime;
      })
          ≡ reloaded mtime now ws book)
  unfolding load_rest recompute_hash
  load_rest-reloaded mtime now book h none_there =
      let fp = record (cleared p now book) {
        contacts = sorted_contacts p book.contacts;
        modified_at = some mtime;
      } in
      let hashed = record fp { content_hash = hash_of p (sorted_contacts p book.contacts) } in
      let same_hash : hashed.content_hash ≡ book.content_hash =
        hash_of-sorted_contacts book.contacts ∙ sym h.hash in
      let versioned : load_meta p book.disk.meta_file hashed
          ≡ record hashed { version = book.version } =
        ap (λ m. load_meta p m hashed)
          (h.meta_file ∙ ap (λ s. some (meta book.version s)) (sym same_hash))
        ∙ load_meta_same book.version hashed in
      let (ws, e) =
        check_fingerprints-warnings (sorted_contacts p book.contacts)
          (record hashed { version = book.version }) in
      (
        ws,
        ap
              (λ (b : AddressBook).
                let r = recompute_hash p b in
                let v = load_meta p r.disk.meta_file r in check_fingerprints p v.contacts v)
              (load_all_fragments-none fp book.disk.fragments refl none_there)
            ∙ ap (λ (v : AddressBook). check_fingerprints p v.contacts v) versioned
            ∙ e
            ∙ ap (λ s. record (reloaded mtime now ws book) { content_hash = s }) same_hash,
      )

  -- A load right after a change, with no fragment file, finds the address book that was written: the
  -- same contacts, in the order of their names, with the same lookups, the same hash and the same
  -- version, and the same files on disk. The list of fragment files that were read is then empty,
  -- whatever it was; but for it, only the warnings and the times of the load may differ.
  pub load_persisted :
      (mtime now : Datetime) (book : AddressBook)
      → IsConsistent p book
      → IsPersisted p book
      → HasNoFragments book
      → (ws : List Warning) × (load p mtime now book ≡ reloaded mtime now ws book)
        × ((k : String) → get k (load p mtime now book) ≡ get k book)
  unfolding load load_files
  load_persisted mtime now book w h none_there =
      let cs = sorted_contacts p book.contacts in
      let unique : HasUniqueIds cs =
        unfold sorted_contacts in sort_by-HasUniqueIds (by_name p) book.contacts w.ids_unique in
      let stable : All (IsStable unicode schema) cs =
        unfold sorted_contacts in
        All-sort_by (by_name p) (IsStable unicode schema) book.contacts w.stable in
      let (ws, e) = load_rest-reloaded mtime now book h none_there in
      let same : load p mtime now book ≡ reloaded mtime now ws book =
        ap (λ f. load_files p mtime f (cleared p now book)) h.primary
        ∙ ap (λ (fp : AddressBook). load_rest p fp.disk.fragments fp)
            (load_primary-dump_all mtime cs (cleared p now book) refl stable unique)
        ∙ e in
      (ws, same, λ k. ap (get k) same ∙ (unfold get in get-sorted_contacts k book w.ids_unique))
