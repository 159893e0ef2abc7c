-- ===== src/Lib.antt =====
-- Verification of the connection service of xmpp_p2p_chat.
--
-- The program is a chat client in two processes: a connection service, which keeps the address book,
-- the messages and the connections, and a text or web interface, which calls it. Modelled are the
-- service, its client and what the text interface shows, under src/xmpp_p2p_chat of the repository:
--
--   Base             texts, results, tables and sorting that the rest shares
--   Models           common/models.py: the records; Models/Jid the validator of JIDs, Models/JsonData
--                    JSON values, Models/Schema the reading and writing of a contact
--   Sanitize         common/sanitize.py
--   AddressBookHash  common/addressbook_hash.py: the content hash (Canonical) and its grid (Grid)
--   AddressBook      connection_service/addressbook.py: `AddressBookManager`; Loading the methods that
--                    read the files, Loaded what they leave, Mutations what add, update and remove do,
--                    Reload what a load after them finds, Status the status
--   AddressBookSync  connection_service/addressbook_sync.py: `AddressBookSyncService`, with
--                    Signature and Updates; Signing, Inbound, Applying and Outbound by what they prove
--   Persistence      connection_service/persistence.py: `PersistenceManager`, each SQL statement as a
--                    function on lists of rows; WellFormed and Invariant the invariant, History the
--                    pages of a chat, Outbox the queue
--   Session          connection_service/session.py: `SessionManager`, with Incoming and Draining;
--                    Routing the choice of a transport, Sending the way out and the outbox, Receiving
--                    the way in, Setup the transports that are needed, with the passwords of
--                    common/credentials.py; Links the transports and the discovery that it starts,
--                    Starting what a start leaves, Discovering the endpoints of discovered peers, Books
--                    the address book that it keeps
--   XmppServer       connection_service/transports/xmpp_server.py: `XMPPServerTransport` as a machine
--                    over Events; Backoff, Reconnecting, Stopping and StreamState by what they prove
--   SmState          connection_service/xmpp/sm_state.py
--   XmppErrors       connection_service/xmpp/errors.py
--   XmppStream       connection_service/transports/xmpp_stream.py: the texts that direct peers exchange,
--                    Parse what is read of them, Escape and Spelling how XML reads and spells them, Header
--                    the opening of a stream
--   DirectP2p        connection_service/transports/direct_p2p.py: `DirectP2PTransport`, and the comparison
--                    of fingerprints in common/certs.py; Listening the listener and presence, Reading
--                    the reading of streams, Framing and ReadLoop the stanzas out of the buffer, Opening
--                    the headers of streams, Admission which peers enter the table
--   Config           common/config.py: `AppConfig`; Loading `load_config` and the default file
--   Discovery        connection_service/discovery/mdns.py: `MdnsDiscovery`; Names the service names,
--                    Peers the table of peers, Seen what one node sees of another
--   Api              connection_service/api.py: `RpcServer`, its clients and its token; Dispatch the
--                    methods, with BookMethods, SyncMethods and ChatMethods over Service; Access,
--                    Broadcasts and Replies what clients can do and hear, Consistency, Pending, Calls and
--                    Safety what the methods do to the address book
--   Node             connection_service/service.py: `ConnectionService`; Starting the order of its start
--   ApiClient        common/api_client.py: `APIClient` as a machine over events; Conservation what becomes
--                    of its calls, Unauthorised and Late two of its runs
--   Display          text_ui/display.py: the contact list (Lists), Formatting and StatusPanel the texts
--   TextUi           text_ui/app.py: the chat of `XMPPApp`; Chat what it shows of a message that was sent
--   Samples, CommonTests and the modules Tests: concrete values, runs and instances
--
-- A session sends by one of two transports and writes to the tables; what cannot be sent waits in the
-- outbox, which is drained when a transport connects. The sync service changes the address book and
-- stores what the user is to decide on in the tables. The address book writes its files on each change,
-- and counts its version up.
--
-- A method that changes a state is a function from state to state, in a `Result` where it may raise.
-- What lies outside is an argument: the Unicode tables (`Unicode`), pydantic (`Schema`, with the two laws
-- that the program relies on, and where it is named one on how an endpoint is read), SHA-256 and HMAC, the reading of XML and of ISO times, and what the
-- transports answer (`Transports`). A time is its ISO text, which the tables compare. Awaits are events:
-- the transport's machine takes the calls of its methods, the callbacks of slixmpp and the progress of
-- the reconnect task in any order, and the API client's those of its tasks.
--
-- Recursion is structural but for two functions on fuel: the digits of a number (Base/Decimal, whose fuel
-- is above the number), and the loop that cuts stanzas out of a buffer (DirectP2p/Reading), whose fuel is
-- above the length of the buffer; that they are enough is proved in Base/Decimal and DirectP2p/ReadLoop.
--
-- The API's methods are a function `dispatch` from the state of the service, which Api/Dispatch gives;
-- each request runs to its end before the next. The node is the service with its start and its stop.
--
-- Not modelled: the sockets, TLS and the making of certificates, the event loop, the interleaving of
-- requests at their awaits, logging, the web server, the widgets and screens of the text interface and
-- the web interface. A write to a file or a table succeeds. The configuration file is read as typed, and a
-- parameter of a request that should be a text and is not is refused with a TypeError.
pub mod Base
pub mod Config
pub mod Models
pub mod Node
pub mod Persistence
pub mod AddressBookHash
pub mod AddressBook
pub mod XmppStream
pub mod DirectP2p
pub mod Display
pub mod Discovery
pub mod Sanitize
pub mod XmppErrors
pub mod SmState
pub mod XmppServer
pub mod Samples
pub mod CommonTests
pub mod Session
pub mod AddressBookSync
pub mod Api
pub mod ApiClient
pub mod TextUi
