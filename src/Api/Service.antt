-- ===== src/Api/Service.antt =====
-- What the methods of src/xmpp_p2p_chat/connection_service/api.py work on: the state of
-- `ConnectionService`, and what a call takes from outside. `datetime`, `uuid`, pydantic's dumps and
-- the texts of exceptions are parameters. Where a method reads a text out of `params`, any other
-- value is refused here at once by a `TypeError`.
use serverless_xmpp.Base.{ℕ, String, Bool, Option, none, some, List, [], ◌∷◌}
use serverless_xmpp.Base.Outcome.{
  Error, Result, ok, err, type_error, attribute_error, key_error, ◌>>=◌,
}
use serverless_xmpp.Config.{AppConfig, AddressBookSyncConfig}
use serverless_xmpp.Models.{
  Datetime, Message, ChatSession, ConnectionState, TransportStatus, AddressBookSyncPending,
  AddressBookSyncStatus,
}
use serverless_xmpp.Models.JsonData.{Json, str, obj, Items, nil, cons, Fields, get}
use serverless_xmpp.AddressBook.{Platform, AddressBook}
use serverless_xmpp.AddressBook.Files.{Warning}
use serverless_xmpp.AddressBook.Status.{AddressBookStatus}
use serverless_xmpp.AddressBookSync.{SyncService, Notice}
use serverless_xmpp.AddressBookSync.Signature.{SyncPlatform}
use serverless_xmpp.Session.{SessionManager, Transports}
use serverless_xmpp.Session.Links.{Links, Answers}
use serverless_xmpp.Api.{Outcome, raised}

pub record HealthStatus : Type 0 where
  pub ok : Bool
  pub uptime_seconds : String
  pub contact_count : ℕ
  pub active_chats : ℕ
  pub pending_outbox : ℕ
  pub warnings : List Warning

-- `model_dump(mode="json")` of the models but the contact.
pub record Dumps : Type 0 where
  pub message : Message → Json
  pub session : ChatSession → Json
  pub transport : TransportStatus → Json
  pub pending : AddressBookSyncPending → Json
  pub sync_status : AddressBookSyncStatus → Json
  pub book_status : AddressBookStatus → Json
  pub health : HealthStatus → Json

-- `describe` is `str(exc)`; `parse_iso` is `datetime.fromisoformat`, and `to_int` is `int(v)`, with
-- nothing for a negative number; `xmpp_status` is the status of the transport in a state.
pub record ApiPlatform : Type 0 where
  pub base : Platform
  pub sync : SyncPlatform
  pub dumps : Dumps
  pub describe : Error → String
  pub parse_iso : String → Result Datetime
  pub to_int : Json → Result (Option ℕ)
  pub xmpp_status : ConnectionState → TransportStatus
  pub keyring : String → Option String

-- What one call meets: the time, a new id, the time since the start, the time of the address book's
-- file, and what the transports answer.
pub record Call : Type 0 where
  pub now : Datetime
  pub new_id : String
  pub uptime : String
  pub file_time : Datetime
  pub answers : Answers
  pub net : Transports

-- `AddressBookSyncService`, without the address book and the database that it shares.
pub record SyncState : Type 0 where
  pub config : AddressBookSyncConfig
  pub has_sender : Bool
  pub pushed : List Notice

-- `announced` has what was sent to peers by sync, and `stopping` says whether a shutdown was begun.
pub record Service : Type 0 where
  pub config : AppConfig
  pub manager : SessionManager
  pub links : Links
  pub sync : Option SyncState
  pub announced : List (List String × Fields)
  pub stopping : Bool

abbrev pub book_of : Service → AddressBook
book_of s = s.manager.book

abbrev pub with_book : Service → AddressBook → Service
with_book s book = record s { manager = record s.manager { book = book } }

abbrev pub with_manager : Service → SessionManager → Service
with_manager s m = record s { manager = m }

-- The sync service with what it shares, and back.
abbrev pub sync_service : SyncState → Service → SyncService
sync_service state s = record {
  book = s.manager.book;
  db = s.manager.db;
  config = state.config;
  has_sender = state.has_sender;
  pushed = state.pushed;
}

abbrev pub with_sync : Service → SyncService → Service
with_sync s sync = record s {
  manager = record s.manager { book = sync.book; db = sync.db };
  sync = some (record { config = sync.config; has_sender = sync.has_sender; pushed = sync.pushed });
}

-- `params["key"]`
unfoldable pub required : String → Json → Result String
required key (obj d) = elim (get key d) [
  | none ↦ err key_error
  | some v ↦ elim v [ str s ↦ ok s | _ ↦ err type_error ]
]
required key _ = err type_error

-- `params.get("key")`
unfoldable pub optional : String → Json → Result (Option Json)
optional key (obj d) = ok (get key d)
optional key _ = err attribute_error

abbrev pub as_text : String → Option Json → Result String
as_text default none = ok default
as_text default (some (str s)) = ok s
as_text default (some _) = err type_error

-- `params.get("key", default)` of a text
unfoldable pub text_or : String → String → Json → Result String
unfolding optional
text_or key default params = optional key params >>= as_text default

-- An outcome, of a result and what is made of it.
unfoldable pub outcome_of {ℓ} : {A : Type ℓ} → (Error → String) → (A → Outcome) → Result A → Outcome
outcome_of describe f (ok x) = f x
outcome_of describe f (err e) = raised (describe e)

-- A method that raises leaves the state as it was.
unfoldable pub finish {ℓ} :
    {A : Type ℓ}
    → (Error → String)
    → Service
    → (A → Outcome × Service)
    → Result A
    → Outcome × Service
finish describe s f (ok x) = f x
finish describe s f (err e) = (raised (describe e), s)

unfoldable pub to_items {ℓ} : {A : Type ℓ} → (A → Json) → List A → Items
to_items f [] = nil
to_items f (x ∷ xs) = cons (f x) (to_items f xs)
