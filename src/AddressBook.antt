-- ===== src/AddressBook.antt =====
-- src/xmpp_p2p_chat/connection_service/addressbook.py: the address book and its files. A method
-- that raises does so before it changes anything, so it returns a state only if it succeeds; the
-- writes to the disk are taken to succeed. The time of a call is an argument.
pub mod Files
pub mod Contacts
pub mod Loading
pub mod Mutations
pub mod Reload
pub mod Loaded
pub mod Status
pub mod Tests
use serverless_xmpp.Base.{
  ℕ, suc, ◌+◌, String, Bool, true, false, ◌&&◌, ◌||◌, Option, none, some, List, [], ◌∷◌, ◌++◌, map,
  ◌==◌, eqb, if◌then◌else◌, text_leb, truthy, length, is_some, Unicode, strip, starts_with,
}
use serverless_xmpp.Base.Sorting.{sort_by}
use serverless_xmpp.Base.Outcome.{Result, ok, err, address_book_error, ◌>>=◌}
use serverless_xmpp.Base.Table
use serverless_xmpp.Models.{Datetime, Contact, DirectEndpoint}
use serverless_xmpp.Models.JsonData
use serverless_xmpp.Models.JsonData.{Json, Items, Fields, nil, cons, str, arr, obj}
use serverless_xmpp.Models.Schema.{Schema, model_validate, validate_fields}
use serverless_xmpp.AddressBookHash.{compute_content_hash, hash_hex}
use Files.{
  File, malformed, good, MetaFile, unreadable, meta, Disk, Warning, unreadable_bundle,
  bundle_not_array, malformed_file, not_array, duplicate_id, invalid_contact, missing_fingerprint,
  placeholder_fingerprint,
}

-- What the program takes from outside: Unicode, pydantic and SHA-256.
pub record Platform : Type 0 where
  pub unicode : Unicode
  pub schema : Schema
  pub sha256 : List Fields → String

-- `AddressBookManager`: its fields and its files. `_contacts` is the dict in insertion order, and
-- `notified` counts the calls of `on_updated`.
pub record AddressBook : Type 0 where
  pub contacts : List Contact
  pub warnings : List Warning
  pub version : ℕ
  pub content_hash : String
  pub modified_at : Option Datetime
  pub loaded_at : Option Datetime
  pub bundled_source : Option String
  pub fragment_files : List String
  pub notified : ℕ
  pub disk : Disk

abbrev pub contact_key : Contact → String
contact_key c = c.id

unfoldable pub get : String → AddressBook → Option Contact
get contact_id book = Table.find contact_key contact_id book.contacts

-- `d[k] = v` on a dict of contacts: a present key keeps its place.
unfoldable pub put : Contact → List Contact → List Contact
put c [] = c ∷ []
put c (d ∷ ds) = let rest = put c ds in if d.id == c.id then c ∷ ds else d ∷ rest

module _ (p : Platform) where
  open p use {unicode, schema, sha256}

  abbrev pub by_name : Contact → Contact → Bool
  by_name c d = text_leb (unicode.lower c.name) (unicode.lower d.name)

  -- The property `contacts`.
  unfoldable pub sorted_contacts : List Contact → List Contact
  sorted_contacts contacts = sort_by by_name contacts

  unfoldable pub dump_all : List Contact → List Fields
  dump_all contacts = map schema.dump contacts

  unfoldable pub hash_of : List Contact → String
  unfolding sorted_contacts dump_all
  hash_of contacts = compute_content_hash sha256 (dump_all (sorted_contacts contacts))

  unfoldable pub recompute_hash : AddressBook → AddressBook
  recompute_hash book = record book { content_hash = hash_of book.contacts }

  abbrev pub items_of : List Fields → Items
  items_of [] = nil
  items_of (d ∷ ds) = cons (obj d) (items_of ds)

  unfoldable pub save_meta : AddressBook → AddressBook
  save_meta book = record book {
    disk = record book.disk { meta_file = some (meta book.version book.content_hash) };
  }

  -- `self.addressbook_update` counts, if a callback is set.
  unfoldable pub notify : AddressBook → AddressBook
  notify book = record book { notified = suc book.notified }

  unfoldable pub persist : Datetime → AddressBook → AddressBook
  unfolding save_meta recompute_hash sorted_contacts dump_all
  persist now book =
      let written = record book {
        disk = record book.disk {
          primary = some (good (arr (items_of (dump_all (sorted_contacts book.contacts)))));
        };
        modified_at = some now;
      } in
      let hashed = recompute_hash written in
      save_meta (record hashed { version = suc hashed.version })

  unfoldable pub add : Datetime → Contact → AddressBook → Result (Contact × AddressBook)
  add now contact book =
      if is_some (get contact.id book)
      then err address_book_error
      else let stamped = record contact { created_at = now; updated_at = now } in
        let book' = record book { contacts = put stamped book.contacts } in
        ok (stamped, notify (persist now book'))

  -- `existing.model_dump()` overlaid with the new values, the id and the time
  unfoldable pub merged : Datetime → String → Fields → Contact → Fields
  merged now contact_id partial existing =
      JsonData.set "updated_at" (str now)
        (JsonData.set "id" (str contact_id) (JsonData.update (schema.dump existing) partial))

  unfoldable pub update : Datetime → String → Fields → AddressBook → Result (Contact × AddressBook)
  update now contact_id partial book = elim (get contact_id book) [
    | none ↦ err address_book_error
    | some existing ↦ do
      updated ← validate_fields unicode schema (merged now contact_id partial existing)
      ok (updated, notify (persist now (record book { contacts = put updated book.contacts })))
  ]

  unfoldable pub remove : Datetime → String → AddressBook → Result AddressBook
  remove now contact_id book =
      if is_some (get contact_id book)
      then ok (
          notify (
            persist now
              (record book { contacts = Table.delete contact_key contact_id book.contacts })))
      else err address_book_error

  -- Two spellings of a hash, with the prefix and without, are one.
  unfoldable pub verify_hash : String → AddressBook → Bool
  verify_hash expected book = hash_hex book.content_hash == hash_hex expected
