-- ===== src/DirectP2p/Tests.antt =====
-- A transport with one pinned contact, and instances of the theorems on it.
use serverless_xmpp.Base.{
  String, true, none, some, [], ◌∷◌, ◌≡◌, refl, starts_with, contains, remove_prefix, strip, lstrip,
  rstrip, ◌⧺◌, if◌then◌else◌,
}
use serverless_xmpp.Base.Table
use serverless_xmpp.Models.{connected}
use serverless_xmpp.Samples.{ascii}
use serverless_xmpp.XmppStream.{extract_stream_jids}
use serverless_xmpp.DirectP2p.Admission.{
  connect_peer-IsVerified, handle_inbound_without_certificate,
}
use serverless_xmpp.Base.{text_length, arith}
use serverless_xmpp.DirectP2p.Reading.{take_stanzas, inner_loop}
use serverless_xmpp.DirectP2p.ReadLoop.{IsDrained, inner_loop-IsDrained}
use serverless_xmpp.DirectP2p.{
  DirectP2p, PeerEndpoint, opened, enter, register_peer, connect_peer, dial, handle_inbound,
  remote_of, verify_fingerprint, normalize_fingerprint, without_blanks, is_live,
}

abbrev alice : PeerEndpoint
alice = record {
  jid = "alice@p2p.local";
  host = "10.0.0.2";
  port = 5223;
  fingerprint = some "SHA256:AB";
}

abbrev listening : DirectP2p
listening = record {
  local_jid = "me@p2p.local";
  listen_port = 5223;
  allow_self_signed = true;
  fingerprint = "SHA256:FF";
  listening = true;
  peers = [];
  peer_endpoints = ("alice@p2p.local", alice) ∷ [];
  state = connected;
  error = none;
  emitted = [];
}

connect_peer-IsVerified_example :
    (digest : String) × (opened (some "AB") ≡ opened (some digest))
    × (let cleaned = without_blanks (strip ascii.is_space "SHA256:AB") in
        "SHA256:" ⧺ digest
        ≡ (if starts_with cleaned "SHA256:" then cleaned else "SHA256:" ⧺ cleaned))
    × (is_live "alice@p2p.local"
          (register_peer ascii alice (enter ascii "alice@p2p.local" listening))
        ≡ true)
unfolding Table.find connect_peer dial verify_fingerprint normalize_fingerprint without_blanks
    starts_with remove_prefix strip lstrip rstrip
connect_peer-IsVerified_example =
    connect_peer-IsVerified ascii alice "SHA256:AB" (opened (some "AB")) listening
      (register_peer ascii alice (enter ascii "alice@p2p.local" listening)) refl refl refl refl

abbrev header : String
header = "<stream:stream from='alice@p2p.local'>"

handle_inbound_without_certificate_example :
    (handle_inbound ascii header (some "CD") listening ≡ listening)
    × (is_live "alice@p2p.local" (handle_inbound ascii header none listening) ≡ true)
unfolding contains starts_with remote_of extract_stream_jids Table.find verify_fingerprint
    normalize_fingerprint without_blanks remove_prefix strip lstrip rstrip
handle_inbound_without_certificate_example =
    handle_inbound_without_certificate ascii header "alice@p2p.local" "CD" alice listening refl refl
      refl refl refl refl

inner_loop-IsDrained_example :
    (take_stanzas 20 "x<iq>1</iq>y" ≡ inner_loop "x<iq>1</iq>y")
    × IsDrained (inner_loop "x<iq>1</iq>y") "x<iq>1</iq>y"
unfolding text_length
inner_loop-IsDrained_example = inner_loop-IsDrained 20 "x<iq>1</iq>y" (omega arith)
