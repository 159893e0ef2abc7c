-- ===== src/Session/Tests.antt =====
-- A manager with one chat, transports that are up or down, and instances of the theorems on them.
use serverless_xmpp.Base.{String, none, List, [], ◌∷◌, ◌≡◌, if◌then◌else◌}
use serverless_xmpp.Base.Outcome.{ok, err, transport_error}
use serverless_xmpp.Base.Table
use serverless_xmpp.Models.{Message, connected}
use serverless_xmpp.Samples.{alice, chat}
use serverless_xmpp.Persistence.Outbox.{queued}
use serverless_xmpp.Persistence.Tests.{one_queued, one_queued-IsWellFormed}
use serverless_xmpp.Persistence.{get_pending_outbox}
use serverless_xmpp.AddressBook.{AddressBook}
use serverless_xmpp.Session.Draining.{drain_outbox}
use serverless_xmpp.Session.{SessionManager, Transports}
use serverless_xmpp.Session.Sending.{any_delivered, drain_outbox-queued}
use serverless_xmpp.Config.{AppConfig, default_config, default_xmpp}
use serverless_xmpp.Samples.{home}

abbrev up : Transports
up = record {
  ensure_xmpp = ok connected;
  connect_peer = λ c. ok connected;
  send = λ route to body mid. ok mid;
}

abbrev down : Transports
down = record {
  ensure_xmpp = err transport_error;
  connect_peer = λ c. err transport_error;
  send = λ route to body mid. err transport_error;
}

abbrev book : AddressBook
book = record {
  contacts = alice ∷ [];
  warnings = [];
  version = 1;
  content_hash = "";
  modified_at = none;
  loaded_at = none;
  bundled_source = none;
  fragment_files = [];
  notified = 0;
  disk = record { primary = none; fragments = none; quarantined = []; meta_file = none };
}

abbrev manager : SessionManager
manager = record {
  default_transport = "xmpp-server";
  book = book;
  db = one_queued;
  sessions = chat ∷ [];
  jid_to_contact = ("alice@example.org", "alice") ∷ [];
  pushed = [];
}

drain_outbox-queued_example :
    (messages : List Message) × (m' : SessionManager) × (get_pending_outbox none one_queued
      ≡ ok messages)
    × (drain_outbox up manager ≡ ok m')
    × ((k : String)
        → queued k m'.db
          ≡ (if any_delivered up manager k messages then none else queued k one_queued))
drain_outbox-queued_example = drain_outbox-queued up manager one_queued-IsWellFormed

abbrev settings : AppConfig
settings = record (default_config home) {
  default_transport = "xmpp-server";
  xmpp = record default_xmpp { jid = "me@example.org"; password_ref = "keyring:me" };
}
