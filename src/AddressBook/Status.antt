-- ===== src/AddressBook/Status.antt =====
-- `status` of src/xmpp_p2p_chat/connection_service/addressbook.py.
use serverless_xmpp.Base.{ℕ, String, Option, List, length, or_else}
use serverless_xmpp.Base.Outcome.{Result, ok, ◌>>=◌}
use serverless_xmpp.Models.{Datetime}
use serverless_xmpp.AddressBookHash.Grid.{hash_block_colors}
use serverless_xmpp.AddressBook.Files.{Warning}
use serverless_xmpp.AddressBook.{AddressBook}

pub record AddressBookStatus : Type 0 where
  pub version : ℕ
  pub content_hash : String
  pub contact_count : ℕ
  pub primary_path : String
  pub fragments_dir : String
  pub fragment_files : List String
  pub loaded_at : Datetime
  pub modified_at : Option Datetime
  pub warnings : List Warning
  pub hash_blocks : List String
  pub bundled_source : Option String

-- The two paths are of the configuration. A hash that is not hexadecimal has no colours.
unfoldable pub status : String → String → Datetime → AddressBook → Result AddressBookStatus
status primary_path fragments_dir now book = do
  hash_blocks ← hash_block_colors book.content_hash 8
  ok (record {
    version = book.version;
    content_hash = book.content_hash;
    contact_count = length book.contacts;
    primary_path = primary_path;
    fragments_dir = fragments_dir;
    fragment_files = book.fragment_files;
    loaded_at = or_else book.loaded_at now;
    modified_at = book.modified_at;
    warnings = book.warnings;
    hash_blocks = hash_blocks;
    bundled_source = book.bundled_source;
  })
