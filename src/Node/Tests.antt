-- ===== src/Node/Tests.antt =====
-- A service on a machine with one file, and an instance of the theorem on its start.
use serverless_xmpp.Base.{false, none, some, List, [], ◌∷◌}
use serverless_xmpp.Base.Outcome.{ok, err, transport_error}
use serverless_xmpp.Models.{disconnected, connected, TransportStatus, ConnectionState}
use serverless_xmpp.Models.JsonData.{Json, null, int, str, obj, field, end}
use serverless_xmpp.Config.{default_config}
use serverless_xmpp.Samples.{home}
use serverless_xmpp.Persistence.{empty}
use serverless_xmpp.AddressBook.Mutations.{IsConsistent}
use serverless_xmpp.AddressBook.Tests.{platform, book}
use serverless_xmpp.Session.Links.{no_links}
use serverless_xmpp.Api.Service.{ApiPlatform, Call}
use serverless_xmpp.Api.Safety.{run_calls}
use serverless_xmpp.Node.{Node, Installation, start}
use serverless_xmpp.Node.Starting.{start-calls-IsConsistent}

abbrev status : ConnectionState → TransportStatus
status state = record {
  transport = "xmpp-server";
  state = state;
  error = none;
  jid = none;
  error_condition = none;
  error_type = none;
  stream_management = none;
}

abbrev api : ApiPlatform
api = record {
  base = platform;
  sync = record { mac = λ key d. ""; text_of = λ v. ""; skew = λ time. some 0 };
  dumps = record {
    message = λ m. null;
    session = λ s. null;
    transport = λ t. null;
    pending = λ r. null;
    sync_status = λ s. null;
    book_status = λ s. null;
    health = λ h. null;
  };
  describe = λ e. "";
  parse_iso = λ s. ok s;
  to_int = λ v. ok (some 50);
  xmpp_status = status;
  keyring = λ entry. none;
}

abbrev call : Call
call = record {
  now = "t1";
  new_id = "new";
  uptime = "1.5";
  file_time = "t0";
  answers = record {
    certificates = ok "SHA256:AA";
    listen = ok tt;
    register = ok tt;
    xmpp_connect = (err transport_error, disconnected);
  };
  net = record {
    ensure_xmpp = err transport_error;
    connect_peer = λ c. ok connected;
    send = λ route to body mid. ok mid;
  };
}

abbrev node : Node
node = record {
  service = record {
    config = default_config home;
    manager = record {
      default_transport = "direct-p2p";
      book = book;
      db = empty;
      sessions = [];
      jid_to_contact = [];
      pushed = [];
    };
    links = no_links;
    sync = none;
    announced = [];
    stopping = false;
  };
  serving = false;
  web = false;
  finished = false;
}

abbrev installation : Installation
installation = record {
  lookup = λ path. none;
  bundled = none;
  expand = λ path. path;
  web_root = none;
}

abbrev calls : List (Call × Json × Json)
calls =
    (call, str "addressbook.remove", obj (field "id" (str "alice") end))
    ∷ (call, str "addressbook.add", obj (field "jid" (str "bob@example.org") end))
    ∷ (call, int 3, null)
    ∷ []

start-calls-IsConsistent_example :
    IsConsistent platform
      (run_calls api calls (start api call installation node).1.service).manager.book
start-calls-IsConsistent_example =
    start-calls-IsConsistent api call installation (λ s h. h) node calls
