-- ===== src/AddressBook/Tests.antt =====
-- Runs of the address book, and instances of its theorems.
use serverless_xmpp.Base.{inr, String, none, some, List, [], ◌∷◌, ◌≡◌, refl, if◌then◌else◌, ◌==◌}
use serverless_xmpp.Base.Outcome.{ok}
use serverless_xmpp.Base.Table
use serverless_xmpp.Models.{Contact}
use serverless_xmpp.Models.Jid
use serverless_xmpp.Models.JsonData
use serverless_xmpp.Models.JsonData.{Fields, field, str, end, arr}
use serverless_xmpp.Models.Schema.{IsStable, LowerKeepsJids, validate_fields, after_parse}
use serverless_xmpp.Samples.{ascii, fields, alice}
use serverless_xmpp.Samples
use serverless_xmpp.AddressBook.Files.{Disk, Warning, good, meta}
use serverless_xmpp.AddressBook.Mutations.{IsConsistent, IsChange, add_accepted, update_accepted}
use serverless_xmpp.AddressBook.Reload.{reloaded, load_persisted}
use serverless_xmpp.AddressBook.Loading.{load}
use serverless_xmpp.AddressBook.{
  Platform, AddressBook, get, add, update, items_of, dump_all, sorted_contacts, hash_of, merged,
}

abbrev pub platform : Platform
platform = record { unicode = ascii; schema = fields; sha256 = λ ds. "00" }

abbrev pub no_files : Disk
no_files = record { primary = none; fragments = some []; quarantined = []; meta_file = none }

abbrev pub no_book : AddressBook
no_book = record {
  contacts = [];
  warnings = [];
  version = 1;
  content_hash = "";
  modified_at = none;
  loaded_at = none;
  bundled_source = none;
  fragment_files = [];
  notified = 0;
  disk = no_files;
}

abbrev pub book : AddressBook
book = record no_book {
  contacts = alice ∷ [];
  content_hash = hash_of platform (alice ∷ []);
  disk = record no_files {
    primary = some (
        good (arr (items_of platform (dump_all platform (sorted_contacts platform (alice ∷ []))))));
    meta_file = some (meta 1 (hash_of platform (alice ∷ [])));
  };
}

abbrev renamed : Fields
renamed = field "name" (str "Bob") (field "id" (str "bob") end)

abbrev bob : Contact
bob = record alice { name = "Bob"; updated_at = "t1" }

alice-IsStable : IsStable ascii fields alice
unfolding validate_fields after_parse Jid.validate_jid Jid.jid_matches Samples.parse Samples.dump
    Samples.rest Samples.with_id Samples.to_option Samples.of_option Samples.tags_of Samples.to_tags
    Samples.of_tags Samples.to_direct Samples.of_direct Samples.to_credentials
    Samples.of_credentials JsonData.get JsonData.as_str
alice-IsStable = refl

pub book-IsConsistent : IsConsistent platform book
unfolding Table.find
book-IsConsistent = record { ids_unique = (refl, tt); stable = (alice-IsStable, tt) }

no_book-IsConsistent : IsConsistent platform no_book
no_book-IsConsistent = record { ids_unique = tt; stable = tt }

pub same_jids : LowerKeepsJids ascii fields
same_jids = λ s h. h

added :
    (book' : AddressBook) × (add platform "t1" alice no_book
      ≡ ok (record alice { created_at = "t1"; updated_at = "t1" }, book'))
    × IsChange platform no_book book'
    × ((k : String)
        → get k book' ≡ (
            if "alice" == k
            then some (record alice { created_at = "t1"; updated_at = "t1" })
            else get k no_book))
unfolding get Table.find
added = add_accepted platform "t1" no_book alice refl

renamed-valid : validate_fields ascii fields (merged platform "t1" "alice" renamed alice) ≡ ok bob
unfolding merged validate_fields after_parse Jid.validate_jid Jid.jid_matches Samples.parse
    Samples.dump Samples.rest Samples.with_id Samples.to_option Samples.of_option Samples.tags_of
    Samples.to_tags Samples.of_tags Samples.to_direct Samples.of_direct Samples.to_credentials
    Samples.of_credentials JsonData.get JsonData.as_str JsonData.set JsonData.update
renamed-valid = refl

updated :
    (book' : AddressBook) × (update platform "t1" "alice" renamed book ≡ ok (bob, book'))
    × (bob.id ≡ "alice")
    × IsChange platform book book'
    × ((j : String) → get j book' ≡ (if "alice" == j then some bob else get j book))
unfolding get Table.find
updated = update_accepted platform "t1" book "alice" renamed alice bob refl renamed-valid

update_accepted_example :
    (book' : AddressBook) × (update platform "t1" "alice" renamed book ≡ ok (bob, book'))
    × (bob.id ≡ "alice")
    × IsChange platform book book'
    × ((j : String) → get j book' ≡ (if "alice" == j then some bob else get j book))
unfolding get Table.find
update_accepted_example =
    update_accepted platform "t1" book "alice" renamed alice bob refl renamed-valid

load_persisted_example :
    (ws : List Warning) × (load platform "t1" "t2" book ≡ reloaded platform "t1" "t2" ws book)
    × ((k : String) → get k (load platform "t1" "t2" book) ≡ get k book)
load_persisted_example =
    load_persisted platform "t1" "t2" book book-IsConsistent
      (record { primary = refl; hash = refl; meta_file = refl }) (inr refl)
