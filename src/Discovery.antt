-- ===== src/Discovery.antt =====
-- Discovery of peers on the local network: `MdnsDiscovery` of
-- src/xmpp_p2p_chat/connection_service/discovery/mdns.py. Bytes are texts of codes below 256. What
-- zeroconf answers is an argument: whether a registration is accepted, and the information on a
-- service.
pub mod Names
pub mod Peers
pub mod Seen
pub mod Tests
use Prim.Native.String.{[] as empty_text, ◌∷◌ as ◌∷ₜ◌}
use serverless_xmpp.Base.{
  ℕ, suc, String, Char, code, Bool, true, false, ◌&&◌, ◌||◌, Option, none, some, List, [], ◌∷◌,
  ◌==◌, eqb, leb, if◌then◌else◌, truthy, text_leb, before_first, text_drop, text_length, ◌⧺◌,
  is_some, Unicode,
}
use serverless_xmpp.Base.Sorting.{sort_by}
use serverless_xmpp.Base.Decimal.{decimal}
use serverless_xmpp.Base.Outcome.{Result, Done, ok, err, value_error}
use serverless_xmpp.Base.Table

pub record DiscoveredPeer : Type 0 where
  pub jid : String
  pub host : String
  pub port : ℕ
  pub fingerprint : Option String
  pub service_name : String

-- `ServiceStateChange`
pub data Change : Type 0 where
  added removed updated : Change

-- `ServiceInfo`: the addresses as bytes, and the properties, of which a value may be missing.
pub record ServiceInfo : Type 0 where
  pub addresses : List String
  pub port : Option ℕ
  pub properties : List (String × Option String)

-- The codec of UTF-8: what is no UTF-8 has no text.
pub record Codec : Type 0 where
  pub unicode : Unicode
  pub encode_utf8 : String → String
  pub decode_utf8 : String → Option String

-- `[^a-zA-Z0-9-]` does not match the character.
unfoldable pub is_jid_safe : Char → Bool
is_jid_safe c =
    leb b'a' (code c) && leb (code c) b'z'
    || leb b'A' (code c) && leb (code c) b'Z'
    || leb b'0' (code c) && leb (code c) b'9'
    || eqb (code c) b'-'

-- `_JID_SAFE.sub("-", s)`
unfoldable pub jid_safe : String → String
unfolding is_jid_safe
jid_safe empty_text = ""
jid_safe (c ∷ₜ s) = (if is_jid_safe c then c else "-") ∷ₜ jid_safe s

-- `jid.partition("@")[2]`
unfoldable pub after_at : String → String
after_at jid = text_drop (suc (text_length (before_first b'@' jid))) jid

-- `s.replace(".", "-")`
unfoldable pub dots_to_dashes : String → String
dots_to_dashes empty_text = ""
dots_to_dashes (c ∷ₜ s) = (if eqb (code c) b'.' then "-" else c) ∷ₜ dots_to_dashes s

abbrev pub text_or : String → String → String
text_or s d = if truthy s then s else d

unfoldable pub jid_to_service_name : String → String
unfolding jid_safe after_at dots_to_dashes
jid_to_service_name jid =
    text_or (jid_safe (before_first b'@' jid)) "peer"
    ⧺ "-"
    ⧺ text_or (jid_safe (dots_to_dashes (after_at jid))) "local"

abbrev pub property_key : String × Option String → String
property_key e = e.0

-- `props.get(key)`
unfoldable pub property : String → List (String × Option String) → Option String
property key props = elim (Table.find property_key key props) [ none ↦ none | some e ↦ e.1 ]

abbrev pub first_truthy : Option String → Option String → Option String
first_truthy none other = other
first_truthy (some s) other = if truthy s then some s else other

module _ (k : Codec) where
  -- UTF-8, and else Latin-1, in which every byte is a character of the same code
  abbrev pub decoded : Option String → Option String
  decoded none = none
  decoded (some raw) = elim (k.decode_utf8 raw) [ some s ↦ some s | none ↦ some raw ]

  unfoldable pub decode_prop : List (String × Option String) → String → Option String
  unfolding property
  decode_prop props key =
      decoded (first_truthy (property key props) (property (k.unicode.upper key) props))

-- `socket.inet_ntoa`, which takes four bytes
unfoldable pub inet_ntoa : String → Result String
inet_ntoa (a ∷ₜ b ∷ₜ c ∷ₜ d ∷ₜ empty_text) =
    ok (decimal (code a) ⧺ "." ⧺ decimal (code b) ⧺ "." ⧺ decimal (code c) ⧺ "." ⧺ decimal (code d))
inet_ntoa _ = err value_error

-- The state: `zeroconf` and `browser` say whether there is one, `peers` is the dict by the name of
-- the service, and `notified` counts the calls of `on_updated`.
pub record MdnsDiscovery : Type 0 where
  pub local_jid : String
  pub listen_port : ℕ
  pub fingerprint : String
  pub service_type : String
  pub zeroconf : Bool
  pub browser : Bool
  pub registered_name : Option String
  pub peers : List DiscoveredPeer
  pub notified : ℕ

abbrev pub peer_key : DiscoveredPeer → String
peer_key p = p.service_name

-- `s.endswith(".")`
unfoldable pub ends_with_dot : String → Bool
ends_with_dot empty_text = false
ends_with_dot (c ∷ₜ s) = if truthy s then ends_with_dot s else eqb (code c) b'.'

unfoldable pub create : String → ℕ → String → String → MdnsDiscovery
unfolding ends_with_dot
create local_jid listen_port fingerprint service_type = record {
  local_jid = local_jid;
  listen_port = listen_port;
  fingerprint = fingerprint;
  service_type = if ends_with_dot service_type then service_type else service_type ⧺ ".";
  zeroconf = false;
  browser = false;
  registered_name = none;
  peers = [];
  notified = 0;
}

abbrev pub by_jid : DiscoveredPeer → DiscoveredPeer → Bool
by_jid p q = text_leb p.jid q.jid

-- The property `peers`.
unfoldable pub listed_peers : MdnsDiscovery → List DiscoveredPeer
listed_peers d = sort_by by_jid d.peers

unfoldable pub full_name : MdnsDiscovery → String
unfolding jid_to_service_name
full_name d = jid_to_service_name d.local_jid ⧺ "." ⧺ d.service_type

-- What is announced: the address of the network, the port and the properties.
unfoldable pub announcement : Codec → String → MdnsDiscovery → ServiceInfo
announcement k address d = record {
  addresses = address ∷ [];
  port = some d.listen_port;
  properties =
      ("jid", some (k.encode_utf8 d.local_jid))
      ∷ ("fp", some (k.encode_utf8 d.fingerprint))
      ∷ ("transport", some "direct-p2p")
      ∷ [];
}

unfoldable pub register_service : Done → MdnsDiscovery → Done × MdnsDiscovery
unfolding full_name
register_service (err e) d = (err e, d)
register_service (ok done) d = (ok done, record d { registered_name = some (full_name d) })

abbrev pub browse : Done × MdnsDiscovery → Done × MdnsDiscovery
browse (err e, d) = (err e, d)
browse (ok done, d) = (ok done, record d { browser = true })

-- A registration that is refused leaves the handle of zeroconf open.
unfoldable pub start : Done → MdnsDiscovery → Done × MdnsDiscovery
unfolding register_service
start answer d =
    if d.zeroconf
    then (ok tt, d)
    else browse (register_service answer (record d { zeroconf = true }))

unfoldable pub stop : MdnsDiscovery → MdnsDiscovery
stop d =
    if d.zeroconf
    then record d { browser = false; registered_name = none; zeroconf = false; peers = [] }
    else d

unfoldable pub notify_updated : MdnsDiscovery → MdnsDiscovery
notify_updated d = record d { notified = suc d.notified }

-- `self._registered_name and name == self._registered_name`
unfoldable pub is_own_service : String → MdnsDiscovery → Bool
is_own_service name d = elim d.registered_name [
  | none ↦ false
  | some registered ↦ truthy registered && name == registered
]

unfoldable pub first_host : List String → Result String
unfolding inet_ntoa
first_host [] = ok ""
first_host (address ∷ addresses) = inet_ntoa address

-- `info.port or self.listen_port`
unfoldable pub port_or : Option ℕ → ℕ → ℕ
port_or none d = d
port_or (some n) d = if eqb n 0 then d else n

unfoldable pub forget_service : String → MdnsDiscovery → MdnsDiscovery
unfolding notify_updated
forget_service name d =
    if is_some (Table.find peer_key name d.peers)
    then notify_updated (record d { peers = Table.delete peer_key name d.peers })
    else d

module _ (k : Codec) where
  unfoldable pub peer_of : String → String → String → ServiceInfo → MdnsDiscovery → DiscoveredPeer
  unfolding decode_prop port_or
  peer_of name jid host info d = record {
    jid = k.unicode.lower jid;
    host = host;
    port = port_or info.port d.listen_port;
    fingerprint = decode_prop k info.properties "fp";
    service_name = name;
  }

  unfoldable pub put_peer :
      String → String → ServiceInfo → Result String → MdnsDiscovery → Result MdnsDiscovery
  unfolding peer_of notify_updated
  put_peer name jid info (err e) d = err e
  put_peer name jid info (ok host) d =
      if truthy host
      then ok (
          notify_updated
            (record d { peers = Table.assign peer_key (peer_of name jid host info d) d.peers }))
      else ok d

  -- An announcement of this node under another name is told by its JID.
  unfoldable pub with_jid :
      String → Option String → ServiceInfo → MdnsDiscovery → Result MdnsDiscovery
  unfolding put_peer first_host
  with_jid name none info d = ok d
  with_jid name (some jid) info d =
      if truthy jid
      then if k.unicode.lower jid == k.unicode.lower d.local_jid
        then ok d
        else put_peer name jid info (first_host info.addresses) d
      else ok d

  unfoldable pub see_service : String → Option ServiceInfo → MdnsDiscovery → Result MdnsDiscovery
  unfolding with_jid decode_prop
  see_service name none d = ok d
  see_service name (some info) d = with_jid name (decode_prop k info.properties "jid") info d

  -- `_handle_service`, with what `get_service_info` answers
  unfoldable pub handle_service :
      String → Change → Option ServiceInfo → MdnsDiscovery → Result MdnsDiscovery
  unfolding is_own_service forget_service see_service
  handle_service name change info d = if is_own_service name d then ok d else elim change [
    | removed ↦ ok (forget_service name d)
    | added ↦ see_service name info d
    | updated ↦ see_service name info d
  ]
