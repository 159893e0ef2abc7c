-- ===== src/Discovery/Seen.antt =====
-- What a service that is seen does to the peers, in
-- src/xmpp_p2p_chat/connection_service/discovery/mdns.py.
use serverless_xmpp.Base.{
  suc, String, true, false, ◌≡◌, ◌≢◌, refl, arith, some, ◌==◌, eq_iff, eqb, truthy, if◌then◌else◌,
}
use mathlib.Core.Path.{subst}
use serverless_xmpp.Base.Outcome.{ok}
use serverless_xmpp.Base.Table
use serverless_xmpp.Discovery.{
  DiscoveredPeer, Change, added, removed, updated, ServiceInfo, Codec, MdnsDiscovery, peer_key,
  notify_updated, is_own_service, peer_of, put_peer, with_jid, see_service, handle_service,
  first_host, decode_prop, property, announcement, full_name, port_or, inet_ntoa,
}

module _ (k : Codec) (name : String) (d : MdnsDiscovery) where
  -- The peers after a service was seen: the one of its name is new, and the callback was told.
  pub record HasSeen (peer : DiscoveredPeer) (d' : MdnsDiscovery) : Type 0 where
    pub lookups :
        (j : String)
        → Table.find peer_key j d'.peers
          ≡ (if peer.service_name == j then some peer else Table.find peer_key j d.peers)
    pub told : d'.notified ≡ suc d.notified

  put_peer-HasSeen :
      (jid : String) (info : ServiceInfo) (host : String)
      → truthy host ≡ true
      → (d' : MdnsDiscovery) × (put_peer k name jid info (ok host) d ≡ ok d')
        × HasSeen (peer_of k name jid host info d) d'
  unfolding put_peer notify_updated
  put_peer-HasSeen jid info host h =
      let peer = peer_of k name jid host info d in
      (
        notify_updated (record d { peers = Table.assign peer_key peer d.peers }),
        rw (put_peer, h) refl,
        record { lookups = λ j. Table.find-assign peer_key j peer d.peers; told = refl },
      )

  module _ (info : ServiceInfo) (jid host : String) (foreign : is_own_service name d ≡ false)
      (has_jid : decode_prop k info.properties "jid" ≡ some jid) (nonempty : truthy jid ≡ true)
      (other : k.unicode.lower jid ≢ k.unicode.lower d.local_jid)
      (has_host : first_host info.addresses ≡ ok host) (nonempty_host : truthy host ≡ true) where
    with_jid_put : with_jid k name (some jid) info d ≡ put_peer k name jid info (ok host) d
    unfolding with_jid
    with_jid_put =
        let e : (k.unicode.lower jid == k.unicode.lower d.local_jid) ≡ false =
          ground (arith, eq_iff (k.unicode.lower jid) (k.unicode.lower d.local_jid)) in
        rw (with_jid, nonempty, e, has_host) refl

    -- A service that is added or changed, is not the own one, and has the JID of another node and an
    -- address becomes the peer of its name; the other peers stay, and the callback is told once.
    pub handle_service-HasSeen :
        (change : Change)
        → change ≢ removed
        → (d' : MdnsDiscovery) × (handle_service k name change (some info) d ≡ ok d')
          × HasSeen (peer_of k name jid host info d) d'
    unfolding handle_service see_service
    handle_service-HasSeen added h =
        rw (handle_service, foreign, see_service, has_jid, with_jid_put)
          (put_peer-HasSeen jid info host nonempty_host)
    handle_service-HasSeen updated h =
        rw (handle_service, foreign, see_service, has_jid, with_jid_put)
          (put_peer-HasSeen jid info host nonempty_host)
    handle_service-HasSeen removed h = absurd (h refl)

-- What the codec of UTF-8 promises of the texts that it has encoded.
pub record IsCodec (k : Codec) : Type 0 where
  pub decode-encode : (s : String) → k.decode_utf8 (k.encode_utf8 s) ≡ some s
  pub encode-truthy : (s : String) → truthy (k.encode_utf8 s) ≡ truthy s

module _ (k : Codec) (law : IsCodec k) (address : String) (a : MdnsDiscovery) where
  announced-jid :
      truthy a.local_jid ≡ true
      → decode_prop k (announcement k address a).properties "jid" ≡ some a.local_jid
  unfolding decode_prop property announcement Table.find
  announced-jid h = rw (law.encode-truthy a.local_jid, h, law.decode-encode a.local_jid) refl

  announced-fp :
      truthy a.fingerprint ≡ true
      → decode_prop k (announcement k address a).properties "fp" ≡ some a.fingerprint
  unfolding decode_prop property announcement Table.find
  announced-fp h = rw (law.encode-truthy a.fingerprint, h, law.decode-encode a.fingerprint) refl

  -- The peer that the announcement stands for.
  abbrev pub announced_peer : String → DiscoveredPeer
  announced_peer host = record {
    jid = k.unicode.lower a.local_jid;
    host = host;
    port = a.listen_port;
    fingerprint = some a.fingerprint;
    service_name = full_name a;
  }

  peer_of-announcement :
      (host : String) (d : MdnsDiscovery)
      → truthy a.fingerprint ≡ true
      → a.listen_port ≢ 0
      → peer_of k (full_name a) a.local_jid host (announcement k address a) d ≡ announced_peer host
  unfolding peer_of port_or announcement
  peer_of-announcement host d f p =
      let e : eqb a.listen_port 0 ≡ false = ground (arith, p) in
      rw (peer_of, e, announced-fp f) refl

  -- What a node announces is found again by another one, if the node has a JID, a fingerprint and a
  -- port, its address is readable and not empty, the other has another JID in lower case, and the
  -- announced name is not the one that the other has registered itself, which the names of two JIDs
  -- may share. That other node then has a peer under the announced name, with the lowered JID, the
  -- address, the port and the fingerprint of the node that announced itself.
  pub handle_service-announcement :
      (host : String) (d : MdnsDiscovery)
      → truthy a.local_jid ≡ true
      → truthy a.fingerprint ≡ true
      → a.listen_port ≢ 0
      → is_own_service (full_name a) d ≡ false
      → k.unicode.lower a.local_jid ≢ k.unicode.lower d.local_jid
      → inet_ntoa address ≡ ok host
      → truthy host ≡ true
      → (d' : MdnsDiscovery) × (handle_service k
            (full_name a)
            added
            (some (announcement k address a))
            d
          ≡ ok d')
        × HasSeen k (full_name a) d (announced_peer host) d'
  unfolding announcement first_host
  handle_service-announcement host d j f p foreign other e h =
      let info = announcement k address a in
      subst
        (λ peer.
          (d' : MdnsDiscovery) × (handle_service k (full_name a) added (some info) d ≡ ok d')
          × HasSeen k (full_name a) d peer d')
        (peer_of-announcement host d f p)
        (handle_service-HasSeen k (full_name a) d info a.local_jid host foreign (announced-jid j) j
          other e h added (λ x. cc x))
