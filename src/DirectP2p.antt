-- ===== src/DirectP2p.antt =====
-- `DirectP2PTransport` of src/xmpp_p2p_chat/connection_service/transports/direct_p2p.py: its table
-- of peers and the framing of the bytes that they send, and the comparison of fingerprints in
-- src/xmpp_p2p_chat/common/certs.py. A certificate is the hexadecimal digest of it, in capitals.
pub mod Framing
pub mod Reading
pub mod ReadLoop
pub mod Opening
pub mod Listening
pub mod Admission
pub mod Tests
use Prim.Native.String.{[], ◌∷◌}
use serverless_xmpp.Base.{
  ℕ, ◌+◌, zero, suc, String, code, Bool, true, false, ◌&&◌, ◌||◌, not, Option, none, some, List,
  ◌++◌, ◌==◌, eqb, ltb, if◌then◌else◌, truthy, is_some, Unicode, strip, starts_with, remove_prefix,
  contains, text_length, text_drop, ◌⧺◌,
}
use serverless_xmpp.Base.Outcome.{Result, ok, err, runtime_error, transport_error}
use serverless_xmpp.Base.Table
use serverless_xmpp.Models.{ConnectionState, disconnected}
use serverless_xmpp.XmppStream.{extract_stream_jids}

pub record PeerEndpoint : Type 0 where
  pub jid : String
  pub host : String
  pub port : ℕ
  pub fingerprint : Option String

-- `closing` is `writer.is_closing()`.
pub record PeerStream : Type 0 where
  pub remote_jid : String
  pub closing : Bool

pub record DirectP2p : Type 0 where
  pub local_jid : String
  pub listen_port : ℕ
  pub allow_self_signed : Bool
  pub fingerprint : String
  pub listening : Bool
  pub peers : List (String × PeerStream)
  pub peer_endpoints : List (String × PeerEndpoint)
  pub state : ConnectionState
  pub error : Option String
  pub emitted : List ConnectionState

abbrev pub peer_key : String × PeerStream → String
peer_key e = e.0

abbrev pub endpoint_key : String × PeerEndpoint → String
endpoint_key e = e.0

-- `s.replace(" ", "")`
unfoldable pub without_blanks : String → String
without_blanks [] = []
without_blanks (c ∷ s) = let rest = without_blanks s in if eqb (code c) b' ' then rest else c ∷ rest

unfoldable pub normalize_fingerprint : Unicode → String → String
unfolding without_blanks
normalize_fingerprint u value =
    let cleaned = without_blanks (u.upper (strip u.is_space value)) in
    if starts_with cleaned "SHA256:" then cleaned else "SHA256:" ⧺ remove_prefix cleaned "SHA256:"

abbrev pub is_pinned : Option String → Bool
is_pinned none = false
is_pinned (some s) = truthy s

unfoldable pub verify_fingerprint : Unicode → Option String → Option String → Bool
verify_fingerprint u cert none = true
verify_fingerprint u cert (some expected) =
    if truthy expected
    then (elim cert [
      | none ↦ false
      | some digest ↦ ("SHA256:" ⧺ digest) == normalize_fingerprint u expected
    ])
    else true

unfoldable pub register_peer : Unicode → PeerEndpoint → DirectP2p → DirectP2p
register_peer u endpoint t = record t {
  peer_endpoints = Table.upsert endpoint_key (u.lower endpoint.jid, endpoint) t.peer_endpoints;
}

abbrev pub live : Option (String × PeerStream) → Bool
live none = false
live (some e) = not e.1.closing

abbrev pub is_live : String → DirectP2p → Bool
is_live key t = live (Table.find peer_key key t.peers)

abbrev pub enter : Unicode → String → DirectP2p → DirectP2p
enter u jid t = record t {
  peers = Table.upsert peer_key (u.lower jid, record { remote_jid = jid; closing = false }) t.peers;
}

-- What comes of `open_connection`: the text of its exception, or the certificate of the peer.
pub data Dialled : Type 0 where
  refused : String → Dialled
  opened : Option String → Dialled

unfoldable pub dial : Unicode → PeerEndpoint → Dialled → DirectP2p → Result (Unit {0}) × DirectP2p
dial u endpoint (refused exc) t = (
  err transport_error,
  record t {
    state = ConnectionState.error;
    error = some ("Peer connect failed (" ⧺ endpoint.jid ⧺ "): " ⧺ exc);
    emitted = t.emitted ++ List.◌∷◌ ConnectionState.error List.[];
  },
)
dial u endpoint (opened cert) t =
    if is_pinned endpoint.fingerprint && not (verify_fingerprint u cert endpoint.fingerprint)
    then (err transport_error, t)
    else (ok tt, register_peer u endpoint (enter u endpoint.jid t))

unfoldable pub connect_peer :
    Unicode → PeerEndpoint → Dialled → DirectP2p → Result (Unit {0}) × DirectP2p
unfolding dial
connect_peer u endpoint dialled t =
    if is_live (u.lower endpoint.jid) t then (ok tt, t) else dial u endpoint dialled t

-- `disconnect()` closes every peer and the listener.
unfoldable pub disconnect : DirectP2p → DirectP2p
disconnect t = record t {
  peers = List.[];
  listening = false;
  state = disconnected;
  emitted = t.emitted ++ List.◌∷◌ disconnected List.[];
}

abbrev pub sent_as : String → Result (Unit {0}) × DirectP2p → Result String × DirectP2p
sent_as mid (ok tt, t) = (ok mid, t)
sent_as mid (err e, t) = (err e, t)

-- `send_message`, with what comes of dialling, if it dials.
unfoldable pub send_message :
    Unicode → Dialled → String → String → DirectP2p → Result String × DirectP2p
send_message u dialled to_jid mid t =
    if is_live (u.lower to_jid) t
    then (ok mid, t)
    else (elim (Table.find endpoint_key (u.lower to_jid) t.peer_endpoints) [
      | none ↦ (err runtime_error, t)
      | some e ↦ sent_as mid (connect_peer u e.1 dialled t)
    ])

-- `from_jid or to_jid` of a header
unfoldable pub remote_of : String → String
remote_of header = let jids = extract_stream_jids header in if truthy jids.0 then jids.0 else jids.1

-- Whether an inbound peer is turned away for its certificate.
unfoldable pub turned_away : Unicode → Option String → String → DirectP2p → Bool
turned_away u cert remote_jid t =
    elim (Table.find endpoint_key (u.lower remote_jid) t.peer_endpoints) [
      | none ↦ false
      | some e ↦
          if is_pinned e.1.fingerprint
          then (elim cert [
            | none ↦ not t.allow_self_signed
            | some digest ↦ not (verify_fingerprint u (some digest) e.1.fingerprint)
          ])
          else false
    ]

-- `_handle_inbound`, of a header that was read.
unfoldable pub handle_inbound : Unicode → String → Option String → DirectP2p → DirectP2p
handle_inbound u header cert t =
    if contains header "<stream:stream" && truthy (remote_of header)
    then if turned_away u cert (remote_of header) t then t else enter u (remote_of header) t
    else t

-- The end of `_read_loop`.
unfoldable pub read_ended : Unicode → String → DirectP2p → DirectP2p
read_ended u remote_jid t = record t { peers = Table.delete peer_key (u.lower remote_jid) t.peers }

abbrev pub prepend_to : String → Option (String × String) → Option (String × String)
prepend_to c none = none
prepend_to c (some (before, rest)) = some (c ⧺ before, rest)

-- What `text.find(needle)` tells: the text before the first place of the needle, and the text from
-- there on.
unfoldable pub split_at : String → String → Option (String × String)
split_at needle [] = if truthy needle then none else some ([], [])
split_at needle (c ∷ s) =
    if starts_with (c ∷ s) needle then some ([], c ∷ s) else prepend_to (c ∷ []) (split_at needle s)

-- The length in UTF-8.
unfoldable pub utf8_length : String → ℕ
utf8_length [] = 0
utf8_length (c ∷ s) =
    (if ltb (code c) 0x80
      then 1
      else if ltb (code c) 0x800
      then 2
      else if ltb (code c) 0x10000
      then 3
      else 4)
    + utf8_length s

-- The stanza and the rest, for one tag that was found; without its end the buffer is kept.
unfoldable pub cut_stanza : String → String → String → Option String × String
cut_stanza tag buffer from_start =
    let end_tag = "</" ⧺ tag ⧺ ">" in
    elim (split_at end_tag from_start) [
      | none ↦ (none, buffer)
      | some e ↦ (some (e.0 ⧺ end_tag), text_drop (text_length end_tag) e.1)
    ]

unfoldable pub extract_tags : List String → String → Option String × String
extract_tags List.[] buffer = if ltb 65536 (utf8_length buffer) then (none, "") else (none, buffer)
extract_tags (List.◌∷◌ tag tags) buffer = elim (split_at ("<" ⧺ tag) buffer) [
  | none ↦ extract_tags tags buffer
  | some e ↦ cut_stanza tag buffer e.1
]

-- `_extract_stanza`, of a buffer that decodes.
unfoldable pub extract_stanza : String → Option String × String
extract_stanza buffer =
    extract_tags (List.◌∷◌ "message" (List.◌∷◌ "presence" (List.◌∷◌ "iq" List.[]))) buffer
