-- ===== src/Discovery/Tests.antt =====
-- Two nodes on a network of an ASCII platform, and instances of the theorems on discovery.
use serverless_xmpp.Base.{String, ◌≡◌, refl, some, List, [], ◌∷◌, All}
use mathlib.Core.List.{Perm}
use serverless_xmpp.Base.Decimal.{decimal}
use serverless_xmpp.Base.Outcome.{ok}
use serverless_xmpp.Base.Sorting.{IsSorted}
use serverless_xmpp.Base.Table
use serverless_xmpp.Samples.{ascii}
use serverless_xmpp.Discovery.{
  Codec, MdnsDiscovery, create, added, announcement, full_name, handle_service, is_own_service,
  inet_ntoa, by_jid, listed_peers, peer_key,
}
use serverless_xmpp.Discovery.Peers.{
  Event, started, stopped, service, run, IsPeer, listed_peers-run,
}
use serverless_xmpp.Discovery.Seen.{IsCodec, HasSeen, announced_peer, handle_service-announcement}

abbrev codec : Codec
codec = record { unicode = ascii; encode_utf8 = λ s. s; decode_utf8 = λ s. some s }

codec-IsCodec : IsCodec codec
codec-IsCodec = record { decode-encode = λ s. refl; encode-truthy = λ s. refl }

abbrev me : MdnsDiscovery
me = create "me@p2p.local" 5223 "SHA256:AA" "_xmpp-p2p._tcp.local"

abbrev alice : MdnsDiscovery
alice = create "alice@p2p.local" 5224 "SHA256:BB" "_xmpp-p2p._tcp.local."

-- The address 10.0.0.2.
abbrev address : String
address = "\n\0\0\u{2}"

handle_service-announcement_example :
    (d' : MdnsDiscovery) × (handle_service codec
        (full_name alice)
        added
        (some (announcement codec address alice))
        me
      ≡ ok d')
    × HasSeen codec
        (full_name alice)
        me
        (announced_peer codec codec-IsCodec address alice "10.0.0.2")
        d'
unfolding create is_own_service inet_ntoa decimal
handle_service-announcement_example =
    handle_service-announcement codec codec-IsCodec address alice "10.0.0.2" me refl refl
      (λ x. cc x) refl (λ x. cc x) refl refl

abbrev events : List Event
events =
    started (ok tt) ∷ service "a" added (some (announcement codec address alice)) ∷ stopped ∷ []

listed_peers-run_example :
    let d = run codec events (create "me@p2p.local" 5223 "SHA256:AA" "_xmpp-p2p._tcp.local") in
    IsSorted by_jid (listed_peers d)
    × All (IsPeer codec "me@p2p.local") (listed_peers d)
    × Perm (listed_peers d) d.peers
    × Table.HasUniqueKeys peer_key d.peers
listed_peers-run_example =
    listed_peers-run codec "me@p2p.local" 5223 "SHA256:AA" "_xmpp-p2p._tcp.local" events
