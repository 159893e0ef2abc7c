-- ===== src/Session/Links.antt =====
-- The transports and the discovery that `SessionManager` of
-- src/xmpp_p2p_chat/connection_service/session.py holds: how they are made, ended and made again. What
-- certificates, ports, the network and the server answer are arguments. Of the transport by the
-- server only its state is kept here. The handler of changes of state, which every opening and closing
-- calls, is `handle_transport_state` and is not run here.
use serverless_xmpp.Base.{
  String, Bool, true, false, Option, none, some, List, [], ◌∷◌, if◌then◌else◌, truthy, Unicode,
  is_some,
}
use serverless_xmpp.Base.Outcome.{Result, Done, ok, err}
use serverless_xmpp.Base.Table
use serverless_xmpp.Config.{AppConfig, effective_local_jid}
use serverless_xmpp.Models.{
  Contact, DirectEndpoint, ChatSession, ConnectionState, connected, disconnected,
}
use serverless_xmpp.Persistence.{list_active_chats}
use serverless_xmpp.AddressBook.{Platform, sorted_contacts}
use serverless_xmpp.DirectP2p.{DirectP2p, PeerEndpoint, register_peer, disconnect}
use serverless_xmpp.DirectP2p.Listening as Listening
use serverless_xmpp.Discovery as Discovery
use serverless_xmpp.Discovery.{MdnsDiscovery, DiscoveredPeer, listed_peers}
use serverless_xmpp.Session.{SessionManager, Transports, session_key, jid_key}
use serverless_xmpp.Session.Setup.{needs_p2p, needs_xmpp, transport_password}
use serverless_xmpp.Session.Draining.{drain_outbox}

pub record Links : Type 0 where
  pub p2p : Option DirectP2p
  pub xmpp : Option ConnectionState
  pub mdns : Option MdnsDiscovery

-- `xmpp_connect` is what `connect()` comes to, and the state that it leaves.
pub record Answers : Type 0 where
  pub certificates : Result String
  pub listen : Done
  pub register : Done
  pub xmpp_connect : Done × ConnectionState

abbrev pub no_links : Links
no_links = record { p2p = none; xmpp = none; mdns = none }

-- A call after another one that did not raise.
infixl 5 ◌then◌
abbrev pub ◌then◌ : Done × Links → (Links → Done × Links) → Done × Links
(err e, l) then f = (err e, l)
(ok done, l) then f = f l

unfoldable pub endpoint_of : Contact → DirectEndpoint → PeerEndpoint
endpoint_of contact direct = record {
  jid = contact.jid;
  host = direct.host;
  port = direct.port;
  fingerprint = direct.public_key_fingerprint;
}

unfoldable pub register_contact : Unicode → Contact → DirectP2p → DirectP2p
unfolding endpoint_of
register_contact u contact t = elim contact.direct [
  | none ↦ t
  | some direct ↦ register_peer u (endpoint_of contact direct) t
]

unfoldable pub register_contacts : Unicode → List Contact → DirectP2p → DirectP2p
unfolding register_contact
register_contacts u [] t = t
register_contacts u (contact ∷ contacts) t =
    register_contacts u contacts (register_contact u contact t)

-- `_register_p2p_peer`
unfoldable pub register_p2p_peer : Unicode → Contact → Links → Links
unfolding register_contact
register_p2p_peer u contact l = elim l.p2p [
  | none ↦ l
  | some t ↦ record l { p2p = some (register_contact u contact t) }
]

unfoldable pub new_transport : AppConfig → DirectP2p
new_transport c = record {
  local_jid = effective_local_jid c;
  listen_port = c.p2p.listen_port;
  allow_self_signed = c.allow_self_signed_direct;
  fingerprint = "";
  listening = false;
  peers = [];
  peer_endpoints = [];
  state = disconnected;
  error = none;
  emitted = [];
}

unfoldable pub started_mdns : Done → MdnsDiscovery → Links → Done × Links
started_mdns answer d l =
    let (done, d') = Discovery.start answer d in (done, record l { mdns = some d' })

unfoldable pub make_mdns : AppConfig → Done → DirectP2p → Links → Done × Links
unfolding started_mdns
make_mdns c answer t l =
    if truthy t.fingerprint
    then started_mdns answer
        (Discovery.create (effective_local_jid c) c.p2p.listen_port t.fingerprint
          c.p2p.mdns_service_type)
        l
    else (ok tt, l)

-- `_ensure_mdns`
unfoldable pub ensure_mdns : AppConfig → Done → Links → Done × Links
unfolding make_mdns
ensure_mdns c answer l =
    if c.p2p.mdns_enabled
    then (elim l.p2p [
      | none ↦ (ok tt, l)
      | some t ↦ if is_some l.mdns then (ok tt, l) else make_mdns c answer t l
    ])
    else (ok tt, l)

module _ (u : Unicode) (c : AppConfig) (contacts : List Contact) (answers : Answers) where
  -- The transport that is there, or a new one that knows the endpoints of the contacts.
  unfoldable pub the_transport : Links → DirectP2p
  unfolding register_contacts new_transport
  the_transport l = elim l.p2p [
    | some t ↦ t
    | none ↦ register_contacts u contacts (new_transport c)
  ]

  unfoldable pub open_listener : Links → Done × Links
  unfolding the_transport
  open_listener l =
      let (done, t) = Listening.connect answers.certificates answers.listen (the_transport l) in
      (done, record l { p2p = some t })

  -- `_ensure_p2p`
  unfoldable pub ensure_p2p : Links → Done × Links
  unfolding open_listener ensure_mdns
  ensure_p2p l = open_listener l then ensure_mdns c answers.register

  module _ (keyring : String → Option String) where
    abbrev pub is_connected : Option ConnectionState → Bool
    is_connected (some connected) = true
    is_connected _ = false

    abbrev pub connect_xmpp : Links → Done × Links
    connect_xmpp l = (answers.xmpp_connect.0, record l { xmpp = some answers.xmpp_connect.1 })

    -- `_ensure_xmpp`: a transport that is there is connected again, and a new one needs a password.
    unfoldable pub ensure_xmpp : Links → Done × Links
    ensure_xmpp l =
        if is_connected l.xmpp
        then (ok tt, l)
        else if is_some l.xmpp
        then connect_xmpp l
        else (elim (transport_password keyring c) [
          | err e ↦ (err e, l)
          | ok password ↦ connect_xmpp l
        ])

    abbrev pub when : Bool → (Links → Done × Links) → Links → Done × Links
    when true f l = f l
    when false f l = (ok tt, l)

    -- The transports that the settings and the contacts ask for.
    unfoldable pub ensure_needed : Links → Done × Links
    unfolding ensure_p2p ensure_xmpp
    ensure_needed l =
        when (needs_p2p keyring c contacts) ensure_p2p l
        then when (needs_xmpp keyring c contacts) ensure_xmpp

-- What `shutdown` leaves: the transports stay, closed.
unfoldable pub shutdown : Links → Links
shutdown l = record {
  p2p = elim l.p2p [ none ↦ none | some t ↦ some (disconnect t) ];
  xmpp = elim l.xmpp [ none ↦ none | some state ↦ some disconnected ];
  mdns = none;
}

unfoldable pub learn_contacts :
    Unicode → List Contact → List (String × String) → List (String × String)
learn_contacts u [] known = known
learn_contacts u (contact ∷ contacts) known =
    learn_contacts u contacts (Table.upsert jid_key (u.lower contact.jid, contact.id) known)

unfoldable pub load_sessions : List ChatSession → SessionManager → SessionManager
load_sessions [] m = m
load_sessions (session ∷ sessions) m =
    load_sessions sessions (record m { sessions = Table.upsert session_key session m.sessions })

abbrev pub drained : Result SessionManager → SessionManager → Links → Done × SessionManager × Links
drained (err e) m l = (err e, m, l)
drained (ok m') m l = (ok tt, m', l)

abbrev pub drain_after : Transports → Done × Links → SessionManager → Done × SessionManager × Links
drain_after net (err e, l) m = (err e, m, l)
drain_after net (ok done, l) m = drained (drain_outbox net m) m l

abbrev pub sessions_after : Done × Links → SessionManager → Done × SessionManager × Links
sessions_after (err e, l) m = (err e, m, l)
sessions_after (ok done, l) m = (ok done, load_sessions (list_active_chats m.db) m, l)

module _ (p : Platform) (c : AppConfig) (answers : Answers) (keyring : String → Option String) where
  -- The contacts in the order of the property `contacts`.
  abbrev pub contacts_of : SessionManager → List Contact
  contacts_of m = sorted_contacts p m.book.contacts

  -- `initialize`
  unfoldable pub initialize : SessionManager → Links → Done × SessionManager × Links
  unfolding ensure_needed learn_contacts load_sessions
  initialize m l =
      let contacts = contacts_of m in
      sessions_after (ensure_needed p.unicode c contacts answers keyring l)
        (record m { jid_to_contact = learn_contacts p.unicode contacts m.jid_to_contact })

  -- `reconnect`: everything is closed and forgotten, and made again.
  unfoldable pub reconnect : Transports → SessionManager → Links → Done × SessionManager × Links
  unfolding ensure_needed
  reconnect net m l =
      drain_after net (ensure_needed p.unicode c (contacts_of m) answers keyring no_links) m

-- `set_presence`: the stanzas to the peers, and whether the server is told.
unfoldable pub set_presence : String → String → Links → List (String × String) × Bool
set_presence show status l = (
  elim l.p2p [ none ↦ [] | some t ↦ Listening.set_presence show status t ],
  elim l.xmpp [ some connected ↦ true | _ ↦ false ],
)

unfoldable pub p2p_fingerprint : Links → Option String
p2p_fingerprint l = elim l.p2p [ none ↦ none | some t ↦ some t.fingerprint ]

unfoldable pub discovered_peers : Links → List DiscoveredPeer
discovered_peers l = elim l.mdns [ none ↦ [] | some d ↦ listed_peers d ]
