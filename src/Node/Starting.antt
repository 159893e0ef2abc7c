-- ===== src/Node/Starting.antt =====
-- The start of the whole service, and the calls after it:
-- src/xmpp_p2p_chat/connection_service/service.py and api.py.
use serverless_xmpp.Base.{◌∷◌, ◌≡◌, refl, ap, ◌∙◌, List}
use serverless_xmpp.Base.Outcome.{Done, ok, err}
use serverless_xmpp.Models.{ChatSession}
use serverless_xmpp.Models.JsonData.{Json}
use serverless_xmpp.Models.Schema.{LowerKeepsJids}
use serverless_xmpp.AddressBook.Mutations.{IsConsistent}
use serverless_xmpp.Base.{[], ◌∷◌}
use serverless_xmpp.Base.Table
use serverless_xmpp.AddressBook.{sorted_contacts}
use serverless_xmpp.Session.{SessionManager, session_key}
use serverless_xmpp.Session.Links.{
  Links, initialize, sessions_after, load_sessions, ensure_needed, learn_contacts,
}
use serverless_xmpp.Persistence.{list_active_chats}
use serverless_xmpp.Api.Service.{ApiPlatform, Call}
use serverless_xmpp.Api.Safety.{run_calls, run_calls-IsConsistent}
use serverless_xmpp.Node.{
  Node, Installation, start, started_book, serve, after_start, resolve_bundled_addressbook,
}

load_sessions-book :
    (sessions : List ChatSession) (m : SessionManager) → (load_sessions sessions m).book ≡ m.book
unfolding load_sessions
load_sessions-book [] m = refl
load_sessions-book (session ∷ sessions) m =
    load_sessions-book sessions
      (record m { sessions = Table.upsert session_key session m.sessions })

sessions_after-book : (r : Done × Links) (m : SessionManager) → (sessions_after r m).1.book ≡ m.book
sessions_after-book (ok done, l) m = load_sessions-book (list_active_chats m.db) m
sessions_after-book (err e, l) m = refl

module _ (a : ApiPlatform) (call : Call) (i : Installation) where
  serve-service : (done : Done) (n : Node) → (serve a call i done n).1.service ≡ n.service
  serve-service (ok done) n = refl
  serve-service (err e) n = refl

  initialize-book :
      (n : Node) (m : SessionManager)
      → (initialize a.base n.service.config call.answers a.keyring m n.service.links).1.book
        ≡ m.book
  unfolding initialize
  initialize-book n m =
      let contacts = sorted_contacts a.base m.book.contacts in
      sessions_after-book
        (ensure_needed a.base.unicode n.service.config contacts call.answers a.keyring
          n.service.links)
        (record m { jid_to_contact = learn_contacts a.base.unicode contacts m.jid_to_contact })

  start-book :
      (n : Node) → (start a call i n).1.service.manager.book ≡ started_book a call i n.service
  unfolding start
  start-book n =
      let m : SessionManager = record n.service.manager {
        book = started_book a call i n.service;
      } in
      let begun = initialize a.base n.service.config call.answers a.keyring m n.service.links in
      let service = after_start a call i begun n.service in
      let served = serve-service begun.0 (record n { service = service }) in
      ap (λ s. s.manager.book) served ∙ initialize-book n m

  -- Once the service was started, on whatever files and with whatever answers of the transports, no
  -- sequence of calls leads to an address book with two contacts of one id or with a contact that is
  -- not valid; the start itself may even have failed half-way.
  pub start-calls-IsConsistent :
      (keeps : LowerKeepsJids a.base.unicode a.base.schema) (n : Node)
      (calls : List (Call × Json × Json))
      → IsConsistent a.base (run_calls a calls (start a call i n).1.service).manager.book
  unfolding started_book
  start-calls-IsConsistent keeps n calls =
      run_calls-IsConsistent a keeps
        (resolve_bundled_addressbook n.service.config i.lookup i.bundled)
        n.service.config.import_bundled_if_empty call.file_time call.now n.service.manager.book
        (start a call i n).1.service calls (start-book n)
