-- ===== src/AddressBook/Files.antt =====
-- The files of an address book and the warnings that loading collects
-- (src/xmpp_p2p_chat/connection_service/addressbook.py).
use serverless_xmpp.Base.{ℕ, String, Option, List}
use serverless_xmpp.Models.JsonData.{Json}

-- What `json.loads(path.read_text())` makes of a file.
pub data File : Type 0 where
  malformed : File
  good : Json → File

-- `.addressbook-meta.json`: the two entries that are read back, or a file that cannot be read.
pub data MetaFile : Type 0 where
  unreadable : MetaFile
  meta : ℕ → String → MetaFile

-- The primary file, the fragments `*.json` in the order of their names (`none` if the directory is
-- missing), the files that were renamed to `….bad`, and the meta file.
pub record Disk : Type 0 where
  pub primary : Option File
  pub fragments : Option (List (String × File))
  pub quarantined : List String
  pub meta_file : Option MetaFile

-- The texts of the warnings, by their kinds and what they name.
pub data Warning : Type 0 where
  unreadable_bundle bundle_not_array : Warning
  malformed_file not_array : String → Warning
  duplicate_id : String → String → Warning
  invalid_contact : String → ℕ → Warning
  missing_fingerprint placeholder_fingerprint : String → Warning
