-- ===== src/Node.antt =====
-- The whole service: `ConnectionService` of src/xmpp_p2p_chat/connection_service/service.py, over the
-- state of Api/Service.antt. What the transports and the bundled files hold is an argument; opening
-- the port of the API is taken to succeed.
pub mod Starting
pub mod Tests
use serverless_xmpp.Base.{
  ◌&&◌, ℕ, String, Bool, true, false, not, ◌||◌, Option, none, some, List, [], ◌∷◌, ◌++◌, ◌==◌,
  if◌then◌else◌, truthy, is_some, length,
}
use serverless_xmpp.Base.Outcome.{Done, ok, err}
use serverless_xmpp.Config.{AppConfig}
use serverless_xmpp.Models.JsonData.{Json, str, int, obj, Fields, end, field}
use serverless_xmpp.AddressBook.{AddressBook}
use serverless_xmpp.AddressBook.Files.{File}
use serverless_xmpp.AddressBook.Loading.{process_startup}
use serverless_xmpp.Session.{SessionManager}
use serverless_xmpp.Session.Links as Links
use serverless_xmpp.Session.Links.{Links, initialize}
use serverless_xmpp.Api.Service.{ApiPlatform, Call, Service, SyncState}

-- `serving` and `web` say whether the API and the web interface run, and `finished` whether
-- `run_forever` is let go.
pub record Node : Type 0 where
  pub service : Service
  pub serving : Bool
  pub web : Bool
  pub finished : Bool

abbrev pub is_localhost : String → Bool
is_localhost host = host == "127.0.0.1" || host == "localhost" || host == "::1"

-- The hosts that `_validate_bind_addresses` warns of.
unfoldable pub validate_bind_addresses : AppConfig → List String
validate_bind_addresses c =
    (if is_localhost c.api_host then [] else c.api_host ∷ [])
    ++ (if is_localhost c.ui.web_host then [] else c.ui.web_host ∷ [])

-- The file that is configured, if it exists, and else the one that comes with the program.
unfoldable pub resolve_bundled_addressbook :
    AppConfig → (String → Option (String × File)) → Option (String × File) → Option (String × File)
resolve_bundled_addressbook c lookup bundled =
    if truthy c.bundled_addressbook && is_some (lookup c.bundled_addressbook)
    then lookup c.bundled_addressbook
    else bundled

-- The configured root is taken without a look at it.
unfoldable pub resolve_web_root : AppConfig → (String → String) → Option String → Option String
resolve_web_root c expand found =
    if truthy c.ui.web_root then some (expand c.ui.web_root) else found

-- What `_on_addressbook_updated` pushes.
unfoldable pub addressbook_updated : AddressBook → Json
addressbook_updated book = obj (
    field "contacts" (int (length book.contacts))
      (field "version" (int book.version) (field "content_hash" (str book.content_hash) end)))

-- What a start finds: the bundled files and the roots of the web interface.
pub record Installation : Type 0 where
  pub lookup : String → Option (String × File)
  pub bundled : Option (String × File)
  pub expand : String → String
  pub web_root : Option String

module _ (a : ApiPlatform) (call : Call) (i : Installation) where
  unfoldable pub started_book : Service → AddressBook
  unfolding resolve_bundled_addressbook
  started_book s =
      process_startup a.base (resolve_bundled_addressbook s.config i.lookup i.bundled)
        s.config.import_bundled_if_empty call.file_time call.now s.manager.book

  -- The sync service, as `initialize` makes it.
  abbrev pub new_sync : Links → AppConfig → SyncState
  new_sync l c = record { config = c.addressbook_sync; has_sender = is_some l.xmpp; pushed = [] }

  abbrev pub after_start : Done × SessionManager × Links → Service → Service
  after_start (done, m, l) s = record s {
    manager = m;
    links = l;
    sync = some (new_sync l s.config);
  }

  abbrev pub serve : Done → Node → Done × Node
  serve (err e) n = (err e, n)
  serve (ok done) n = (
    ok done,
    record n {
      serving = true;
      web =
          n.service.config.ui.serve_web
          && is_some (resolve_web_root n.service.config i.expand i.web_root);
    },
  )

  -- `start`: the address book, the sessions with their transports, and then the API and the web
  -- interface. When the sessions raise, nothing is served.
  unfoldable pub start : Node → Done × Node
  unfolding started_book resolve_web_root
  start n =
      let m : SessionManager = record n.service.manager { book = started_book n.service } in
      let begun = initialize a.base n.service.config call.answers a.keyring m n.service.links in
      serve begun.0 (record n { service = after_start begun n.service })

-- `shutdown`
unfoldable pub shutdown : Node → Node
shutdown n = record n {
  service = record n.service { links = Links.shutdown n.service.links };
  serving = false;
  web = false;
  finished = true;
}
