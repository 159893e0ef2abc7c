-- ===== src/Discovery/Peers.antt =====
-- The peers that are known after any sequence of starts, stops and services, in
-- src/xmpp_p2p_chat/connection_service/discovery/mdns.py.
use serverless_xmpp.Base.{
  Bool-cases, ℕ, String, true, ◌≡◌, ◌≢◌, inl, inr, refl, arith, Option, none, some, List, [], ◌∷◌,
  ◌==◌, eq_iff, truthy, is_some, All, text_leb_total, text_leb_trans,
}
use mathlib.Core.List.{Perm}
use serverless_xmpp.Base.Outcome.{Result, Done, ok, err}
use serverless_xmpp.Base.Sorting.{IsSorted, sort_by-IsSorted, sort_by-perm, All-sort_by}
use serverless_xmpp.Base.Table
use serverless_xmpp.Discovery.{
  DiscoveredPeer, Change, added, removed, updated, ServiceInfo, Codec, MdnsDiscovery, peer_key,
  by_jid, listed_peers, create, start, stop, register_service, notify_updated, is_own_service,
  peer_of, put_peer, with_jid, see_service, forget_service, handle_service, first_host, decode_prop,
}

-- What the program and the network do to the discovery, in any order.
pub data Event : Type 0 where
  started : Done → Event
  stopped : Event
  service : String → Change → Option ServiceInfo → Event

module _ (k : Codec) where
  -- A listener that raises leaves the peers as they were.
  pub kept : Result MdnsDiscovery → MdnsDiscovery → MdnsDiscovery
  kept (ok d') d = d'
  kept (err e) d = d

  pub step : Event → MdnsDiscovery → MdnsDiscovery
  unfolding kept
  step (started answer) d = (start answer d).1
  step stopped d = stop d
  step (service name change info) d = kept (handle_service k name change info d) d

  unfoldable pub run : List Event → MdnsDiscovery → MdnsDiscovery
  run [] d = d
  run (e ∷ events) d = run events (step e d)

  -- A peer that has an address and a lowered JID, which is not the own one.
  pub record IsPeer (own : String) (p : DiscoveredPeer) : Type 0 where
    pub has_host : truthy p.host ≡ true
    pub is_lower : k.unicode.lower p.jid ≡ p.jid
    pub is_other : p.jid ≢ k.unicode.lower own

  pub record IsWellFormed (own : String) (d : MdnsDiscovery) : Type 0 where
    pub own_jid : d.local_jid ≡ own
    pub names : Table.HasUniqueKeys peer_key d.peers
    pub valid : All (IsPeer own) d.peers

  module _ (own : String) where
    start-IsWellFormed :
        (answer : Done) (d : MdnsDiscovery)
        → IsWellFormed own d
        → IsWellFormed own (start answer d).1
    unfolding start register_service
    start-IsWellFormed (ok done) d h = ground (arith, h)
    start-IsWellFormed (err e) d h = ground (arith, h)

    stop-IsWellFormed : (d : MdnsDiscovery) → IsWellFormed own d → IsWellFormed own (stop d)
    unfolding stop
    stop-IsWellFormed d h = elim (Bool-cases d.zeroconf) [
      | inl e ↦ rw (stop, e) (record { own_jid = h.own_jid; names = tt; valid = tt })
      | inr e ↦ rw (stop, e) (record { own_jid = h.own_jid; names = h.names; valid = h.valid })
    ]

    forget_service-IsWellFormed :
        (name : String) (d : MdnsDiscovery)
        → IsWellFormed own d
        → IsWellFormed own (forget_service name d)
    unfolding forget_service notify_updated
    forget_service-IsWellFormed name d h =
        elim (Bool-cases (is_some (Table.find peer_key name d.peers))) [
          | inl e ↦
              rw (forget_service, e)
                (record {
                  own_jid = h.own_jid;
                  names = Table.delete-HasUniqueKeys peer_key name d.peers h.names;
                  valid = Table.All-delete peer_key (IsPeer own) name d.peers h.valid;
                })
          | inr e ↦ rw (forget_service, e) h
        ]

    put_peer-IsWellFormed :
        (name jid : String) (info : ServiceInfo) (host : Result String) (d : MdnsDiscovery)
        → k.unicode.lower jid ≢ k.unicode.lower own
        → IsWellFormed own d
        → IsWellFormed own (kept (put_peer k name jid info host d) d)
    unfolding put_peer peer_of notify_updated kept
    put_peer-IsWellFormed name jid info (err e) d other h = h
    put_peer-IsWellFormed name jid info (ok host) d other h = elim (Bool-cases (truthy host)) [
      | inl e ↦
          let peer = peer_of k name jid host info d in
          let good : IsPeer own peer = record {
            has_host = e;
            is_lower = k.unicode.lower_idem jid;
            is_other = other;
          } in
          rw (kept, put_peer, e)
            (record {
              own_jid = h.own_jid;
              names = Table.assign-HasUniqueKeys peer_key peer d.peers h.names;
              valid = Table.All-assign peer_key (IsPeer own) peer d.peers good h.valid;
            })
      | inr e ↦ rw (kept, put_peer, e) h
    ]

    with_jid-IsWellFormed :
        (name : String) (jid : Option String) (info : ServiceInfo) (d : MdnsDiscovery)
        → IsWellFormed own d
        → IsWellFormed own (kept (with_jid k name jid info d) d)
    unfolding with_jid kept
    with_jid-IsWellFormed name none info d h = h
    with_jid-IsWellFormed name (some jid) info d h =
        let same = eq_iff (k.unicode.lower jid) (k.unicode.lower d.local_jid) in
        elim (Bool-cases (truthy jid)) [
          | inl e ↦ elim (Bool-cases (k.unicode.lower jid == k.unicode.lower d.local_jid)) [
            | inl f ↦ rw (kept, with_jid, e, f) h
            | inr f ↦
                rw (kept, with_jid, e, f)
                  (put_peer-IsWellFormed name jid info (first_host info.addresses) d
                    (ground (arith, h.own_jid, same)) h)
          ]
          | inr e ↦ rw (kept, with_jid, e) h
        ]

    handle_service-IsWellFormed :
        (name : String) (change : Change) (info : Option ServiceInfo) (d : MdnsDiscovery)
        → IsWellFormed own d
        → IsWellFormed own (kept (handle_service k name change info d) d)
    unfolding handle_service see_service kept
    handle_service-IsWellFormed name change info d h = elim (Bool-cases (is_own_service name d)) [
      | inl e ↦ rw (kept, handle_service, e) h
      | inr e ↦ rw (handle_service, e) (go change info)
    ]
      where
        go :
            (change : Change) (info : Option ServiceInfo)
            → IsWellFormed own (
                kept
                  (elim change [
                    | removed ↦ ok (forget_service name d)
                    | added ↦ see_service k name info d
                    | updated ↦ see_service k name info d
                  ])
                  d)
        go removed info = forget_service-IsWellFormed name d h
        go added none = h
        go updated none = h
        go added (some info) =
            with_jid-IsWellFormed name (decode_prop k info.properties "jid") info d h
        go updated (some info) =
            with_jid-IsWellFormed name (decode_prop k info.properties "jid") info d h

    run-IsWellFormed :
        (events : List Event) (d : MdnsDiscovery)
        → IsWellFormed own d
        → IsWellFormed own (run events d)
    unfolding run step
    run-IsWellFormed [] d h = h
    run-IsWellFormed (started answer ∷ events) d h =
        run-IsWellFormed events (start answer d).1 (start-IsWellFormed answer d h)
    run-IsWellFormed (stopped ∷ events) d h =
        run-IsWellFormed events (stop d) (stop-IsWellFormed d h)
    run-IsWellFormed (service name change info ∷ events) d h =
        run-IsWellFormed events (kept (handle_service k name change info d) d)
          (handle_service-IsWellFormed name change info d h)

  created-IsWellFormed :
      (own : String) (port : ℕ) (fingerprint type : String)
      → IsWellFormed own (create own port fingerprint type)
  unfolding create
  created-IsWellFormed own port fingerprint type = record { own_jid = refl; names = tt; valid = tt }

  -- After any sequence of starts, stops and services, whatever the network answers, the list of peers
  -- is in the order of their JIDs; each has an address and a JID in lower case that is not the own
  -- one; and it is a rearrangement of the peers kept, which have different service names.
  pub listed_peers-run :
      (own : String) (port : ℕ) (fingerprint type : String) (events : List Event)
      → let d = run events (create own port fingerprint type) in
        IsSorted by_jid (listed_peers d)
        × All (IsPeer own) (listed_peers d)
        × Perm (listed_peers d) d.peers
        × Table.HasUniqueKeys peer_key d.peers
  unfolding listed_peers
  listed_peers-run own port fingerprint type events =
      let d = run events (create own port fingerprint type) in
      let h =
        run-IsWellFormed own events (create own port fingerprint type)
          (created-IsWellFormed own port fingerprint type) in
      (
        sort_by-IsSorted by_jid (λ p q. text_leb_total p.jid q.jid)
            (λ p q r. text_leb_trans p.jid q.jid r.jid) d.peers,
        All-sort_by by_jid (IsPeer own) d.peers h.valid,
        sort_by-perm by_jid d.peers,
        h.names,
      )
