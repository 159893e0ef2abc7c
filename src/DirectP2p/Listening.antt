-- ===== src/DirectP2p/Listening.antt =====
-- The listener of the direct transport, what it says of itself, and the presence that it sends, in
-- src/xmpp_p2p_chat/connection_service/transports/direct_p2p.py. What the making of certificates and
-- the opening of the port come to are arguments.
use serverless_xmpp.Base.{ℕ, suc, String, true, none, some, List, [], ◌∷◌, ◌++◌, ◌⧺◌, if◌then◌else◌}
use serverless_xmpp.Base.Decimal.{decimal}
use serverless_xmpp.Base.Outcome.{Result, Done, ok, err}
use serverless_xmpp.Models.{TransportStatus, connected}
use serverless_xmpp.XmppStream.{presence_stanza}
use serverless_xmpp.DirectP2p.{DirectP2p, PeerStream}

unfoldable pub listen : Done → DirectP2p → Done × DirectP2p
listen (err e) t = (err e, t)
listen (ok done) t = (
  ok done,
  record t {
    listening = true;
    state = connected;
    error = none;
    emitted = t.emitted ++ connected ∷ [];
  },
)

-- The fingerprint is kept when the port cannot be opened.
unfoldable pub certify : Result String → Done → DirectP2p → Done × DirectP2p
unfolding listen
certify (err e) opened t = (err e, t)
certify (ok fingerprint) opened t = listen opened (record t { fingerprint = fingerprint })

-- `connect()`
unfoldable pub connect : Result String → Done → DirectP2p → Done × DirectP2p
unfolding certify
connect certificates opened t = if t.listening then (ok tt, t) else certify certificates opened t

unfoldable pub count_open : List (String × PeerStream) → ℕ
count_open [] = 0
count_open ((jid, peer) ∷ peers) =
    let rest = count_open peers in if peer.closing then rest else suc rest

unfoldable pub status : DirectP2p → TransportStatus
unfolding count_open
status t = record {
  transport = "direct-p2p";
  state = t.state;
  error = t.error;
  jid = some (
      t.local_jid
      ⧺ " ("
      ⧺ decimal (count_open t.peers)
      ⧺ " peer(s) on :"
      ⧺ decimal t.listen_port
      ⧺ ")");
  error_condition = none;
  error_type = none;
  stream_management = none;
}

-- What `set_presence` writes: to each peer that is not closing, a stanza for its JID.
unfoldable pub presence_writes :
    String → String → String → List (String × PeerStream) → List (String × String)
presence_writes local_jid show status [] = []
presence_writes local_jid show status ((jid, peer) ∷ peers) =
    let rest = presence_writes local_jid show status peers in
    if peer.closing
    then rest
    else (peer.remote_jid, presence_stanza local_jid peer.remote_jid show status) ∷ rest

unfoldable pub set_presence : String → String → DirectP2p → List (String × String)
unfolding presence_writes
set_presence show status t = presence_writes t.local_jid show status t.peers
