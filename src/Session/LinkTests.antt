-- ===== src/Session/LinkTests.antt =====
-- A session that starts its direct transport and finds a peer, and instances of the theorems on it.
use serverless_xmpp.Base.{true, ◌≡◌, ◌⊎◌, refl, none, some, [], ◌∷◌, All}
use serverless_xmpp.Base.Outcome.{ok, err, transport_error}
use serverless_xmpp.Base.Table
use serverless_xmpp.Config.{default_config}
use serverless_xmpp.Models.{Contact, disconnected}
use serverless_xmpp.Samples.{ascii, alice, home}
use serverless_xmpp.AddressBook.{get}
use serverless_xmpp.AddressBook.Tests.{platform, book}
use serverless_xmpp.DirectP2p.{DirectP2p}
use serverless_xmpp.DirectP2p.Listening.{connect, certify, listen}
use serverless_xmpp.Discovery.{DiscoveredPeer, MdnsDiscovery, create, listed_peers}
use serverless_xmpp.DirectP2p.{register_peer}
use serverless_xmpp.Discovery.{start}
use serverless_xmpp.Base.Sorting.{sort_by}
use serverless_xmpp.Models.Jid
use serverless_xmpp.Models.JsonData
use serverless_xmpp.Models.Schema.{validate_fields, after_parse}
use serverless_xmpp.Samples
use serverless_xmpp.Samples.{fields, fields-ReadsEndpoints}
use serverless_xmpp.AddressBook.{AddressBook, update, merged}
use serverless_xmpp.AddressBook.Mutations.{update_accepted}
use serverless_xmpp.Session.Discovering.{discovered_fields, registered, has_real_endpoint}
use serverless_xmpp.Session.Links.{
  register_p2p_peer, Links, Answers, no_links, ensure_p2p, open_listener, ensure_mdns, make_mdns,
  started_mdns, the_transport,
}
use serverless_xmpp.Session.Starting.{knows, ensure_p2p-knows}
use serverless_xmpp.Session.Discovering.{Applied, apply_discovered_endpoint, apply_peers}
use serverless_xmpp.Session.Discovering.Endpoints.{
  IsOther, IsReal, IsFirst, IsPlaceholder, IsApplied, apply_discovered_endpoint_lem,
}

abbrev answers : Answers
answers = record {
  certificates = ok "SHA256:AA";
  listen = ok tt;
  register = ok tt;
  xmpp_connect = (err transport_error, disconnected);
}

abbrev near : Contact
near = record alice {
  direct = some (record { host = "10.0.0.2"; port = 5223; public_key_fingerprint = none });
}

ensure_p2p-knows_example :
    (t : DirectP2p) × ((ensure_p2p ascii (default_config home) (near ∷ []) answers no_links).1.p2p
      ≡ some t)
    × (t.listening ≡ true)
    × All (λ contact. knows ascii t contact ≡ true) (near ∷ [])
unfolding ensure_p2p open_listener ensure_mdns make_mdns started_mdns default_config connect certify
    listen the_transport register_peer start create
ensure_p2p-knows_example =
    ensure_p2p-knows ascii (default_config home) (near ∷ []) answers no_links
      (ensure_p2p ascii (default_config home) (near ∷ []) answers no_links).1 refl refl

abbrev seen : DiscoveredPeer
seen = record {
  jid = "alice@example.org";
  host = "10.0.0.9";
  port = 5223;
  fingerprint = some "SHA256:BB";
  service_name = "alice";
}

abbrev browsing : Links
browsing = record no_links {
  mdns = some (record (create "me@p2p.local" 5223 "SHA256:AA" "_xmpp-p2p._tcp.local.") {
    peers = seen ∷ [];
  });
}

abbrev moved : Contact
moved = record alice {
  direct =
      some (record { host = "10.0.0.9"; port = 5223; public_key_fingerprint = some "SHA256:BB" });
  preferred_transport = "direct-p2p";
  updated_at = "t1";
}

moved-valid :
    validate_fields ascii fields (merged platform "t1" "alice" (discovered_fields seen) alice)
    ≡ ok moved
unfolding merged discovered_fields validate_fields after_parse Jid.validate_jid Jid.jid_matches
    Samples.parse Samples.dump Samples.rest Samples.with_id Samples.to_option Samples.of_option
    Samples.tags_of Samples.to_tags Samples.of_tags Samples.to_direct Samples.of_direct
    Samples.to_credentials Samples.of_credentials JsonData.get JsonData.set JsonData.update
    JsonData.as_str
moved-valid = refl

updated :
    (book' : AddressBook) × (update platform "t1" "alice" (discovered_fields seen) book
      ≡ ok (moved, book'))
unfolding Table.find get
updated =
    let change =
      update_accepted platform "t1" book "alice" (discovered_fields seen) alice moved refl
        moved-valid in
    (change.0, change.1)

found :
    (applied : Applied platform "t1") × (apply_discovered_endpoint platform "t1" "alice" book
        browsing
      ≡ ok applied)
unfolding apply_discovered_endpoint apply_peers registered has_real_endpoint get Table.find
    listed_peers sort_by create
found = ((some moved, updated.0, register_p2p_peer ascii moved browsing), rw updated.1 refl)

apply_discovered_endpoint_lem_example :
    ((found.0.1 ≡ book)
      × (found.0.2 ≡ browsing)
      × ((get "alice" book ≡ none)
          ⊎ ((browsing.mdns ≡ none)
              ⊎ ((contact : Contact) × (d : MdnsDiscovery) × (get "alice" book ≡ some contact)
                  × (browsing.mdns ≡ some d)
                  × (All (IsOther platform "t1" contact) (listed_peers d)
                      ⊎ IsReal platform "t1" contact.direct)))))
    ⊎ ((contact : Contact) × (d : MdnsDiscovery) × (peer : DiscoveredPeer) × (get "alice" book
          ≡ some contact)
        × (browsing.mdns ≡ some d)
        × IsFirst platform "t1" contact peer (listed_peers d)
        × IsPlaceholder platform "t1" contact.direct
        × IsApplied platform "t1" "alice" peer book browsing found.0)
apply_discovered_endpoint_lem_example =
    apply_discovered_endpoint_lem platform "t1" fields-ReadsEndpoints "alice" book browsing found.0
      found.1
