-- ===== src/AddressBook/Loading.antt =====
-- `load`, `reload` and `process_startup` of
-- src/xmpp_p2p_chat/connection_service/addressbook.py.
use serverless_xmpp.Base.{
  ℕ, suc, String, Bool, true, false, ◌&&◌, not, Option, none, some, List, [], ◌∷◌, ◌++◌, ◌==◌,
  if◌then◌else◌, truthy, is_some, strip, starts_with, or_else,
}
use serverless_xmpp.Base.Outcome.{Result, ok, err}
use serverless_xmpp.Models.{Datetime, Contact}
use serverless_xmpp.Models.JsonData.{Json, Items, nil, cons, arr}
use serverless_xmpp.Models.Schema.{model_validate}
use serverless_xmpp.AddressBook.Files.{
  File, malformed, good, MetaFile, unreadable, meta, Warning, unreadable_bundle, bundle_not_array,
  malformed_file, not_array, duplicate_id, invalid_contact, missing_fingerprint,
  placeholder_fingerprint,
}
use serverless_xmpp.AddressBook.{Platform, AddressBook, get, put, recompute_hash, save_meta, notify}

abbrev pub warn : Warning → AddressBook → AddressBook
warn w book = record book { warnings = book.warnings ++ w ∷ [] }

module _ (p : Platform) where
  open p use {unicode, schema}

  -- The body of the loop of `_load_file`, for one entry.
  unfoldable pub load_validated : String → ℕ → Result Contact → AddressBook → AddressBook
  load_validated source idx (err e) book = warn (invalid_contact source idx) book
  load_validated source idx (ok contact) book =
      if is_some (get contact.id book)
      then warn (duplicate_id contact.id source) book
      else record book { contacts = put contact book.contacts }

  unfoldable pub load_entries : String → ℕ → Items → AddressBook → AddressBook
  load_entries source idx nil book = book
  load_entries source idx (cons entry raw) book =
      load_entries source (suc idx) raw
        (load_validated source idx (model_validate unicode schema entry) book)

  unfoldable pub load_value : String → Json → AddressBook → AddressBook
  load_value source (arr raw) book = load_entries source 0 raw book
  load_value source _ book = warn (not_array source) book

  -- The primary file; a malformed one is moved away, and no empty one is made in its place.
  unfoldable pub load_primary : Datetime → Option File → AddressBook → AddressBook
  load_primary mtime none book = record book {
    disk = record book.disk { primary = some (good (arr nil)) };
  }
  load_primary mtime (some malformed) book = warn (malformed_file "primary") (record book {
    disk = record book.disk {
      primary = none;
      quarantined = book.disk.quarantined ++ "primary" ∷ [];
    };
  })
  load_primary mtime (some (good raw)) book =
      let loaded = load_value "primary" raw book in record loaded { modified_at = some mtime }

  -- The loop over the fragments: those that stay, and the address book.
  unfoldable pub load_fragments :
      List (String × File) → AddressBook → List (String × File) × AddressBook
  load_fragments [] book = ([], book)
  load_fragments ((name, malformed) ∷ files) book = load_fragments files (
      warn (malformed_file name) (record book {
        fragment_files = book.fragment_files ++ name ∷ [];
        disk = record book.disk { quarantined = book.disk.quarantined ++ name ∷ [] };
      }))
  load_fragments ((name, good raw) ∷ files) book =
      let (kept, book') =
        load_fragments files (
          load_value name raw
            (record book { fragment_files = book.fragment_files ++ name ∷ [] })) in
      ((name, good raw) ∷ kept, book')

  unfoldable pub load_all_fragments : Option (List (String × File)) → AddressBook → AddressBook
  load_all_fragments none book = book
  load_all_fragments (some files) book =
      let (kept, book') = load_fragments files book in
      record book' { disk = record book'.disk { fragments = some kept } }

  -- A stored hash that differs from the one just computed raises the stored version by one.
  unfoldable pub load_meta : Option MetaFile → AddressBook → AddressBook
  load_meta none book = book
  load_meta (some unreadable) book = book
  load_meta (some (meta version stored_hash)) book = record book {
    version =
        if truthy stored_hash && not (stored_hash == book.content_hash)
        then suc version
        else version;
  }

  unfoldable pub check_fingerprint : Contact → AddressBook → AddressBook
  check_fingerprint contact book = elim contact.direct [
    | none ↦ book
    | some direct ↦
        let fp = strip unicode.is_space (or_else direct.public_key_fingerprint "") in
        if not (truthy fp)
        then warn (missing_fingerprint contact.id) book
        else if starts_with (unicode.upper fp) "REPLACE"
        then warn (placeholder_fingerprint contact.id) book
        else book
  ]

  unfoldable pub check_fingerprints : List Contact → AddressBook → AddressBook
  check_fingerprints [] book = book
  check_fingerprints (c ∷ cs) book = check_fingerprints cs (check_fingerprint c book)

  abbrev pub cleared : Datetime → AddressBook → AddressBook
  cleared now book = record book {
    contacts = [];
    warnings = [];
    fragment_files = [];
    loaded_at = some now;
  }

  -- The rest of `load` after the primary file: the fragments, the hash, the version, the check.
  unfoldable pub load_rest : Option (List (String × File)) → AddressBook → AddressBook
  load_rest fragments from_primary =
      let hashed = recompute_hash p (load_all_fragments fragments from_primary) in
      let versioned = load_meta hashed.disk.meta_file hashed in
      check_fingerprints versioned.contacts versioned

  unfoldable pub load_files : Datetime → Option File → AddressBook → AddressBook
  load_files mtime primary started =
      let from_primary = load_primary mtime primary started in
      load_rest from_primary.disk.fragments from_primary

  unfoldable pub load : Datetime → Datetime → AddressBook → AddressBook
  load mtime now book = load_files mtime book.disk.primary (cleared now book)

  unfoldable pub reload : Datetime → Datetime → AddressBook → AddressBook
  reload mtime now book = notify p (save_meta p (load mtime now book))

  -- `bundled` is the bundled file, if one is configured and exists, and its path.
  unfoldable pub import_bundled : String × File → AddressBook → AddressBook
  import_bundled (path, malformed) book = warn unreadable_bundle book
  import_bundled (path, good (arr raw)) book = record book {
    disk = record book.disk { primary = some (good (arr raw)) };
    bundled_source = some path;
  }
  import_bundled (path, good _) book = warn bundle_not_array book

  unfoldable pub import_when_empty :
      Bool → Option (String × File) → Datetime → Datetime → AddressBook → AddressBook
  import_when_empty false bundled mtime now book = book
  import_when_empty true none mtime now book = book
  import_when_empty true (some file) mtime now book = elim book.contacts [
    | [] ↦ load mtime now (import_bundled file book)
    | c ∷ cs ↦ book
  ]

  unfoldable pub process_startup :
      Option (String × File) → Bool → Datetime → Datetime → AddressBook → AddressBook
  process_startup bundled import_if_empty mtime now book =
      save_meta p (import_when_empty import_if_empty bundled mtime now (load mtime now book))
