-- ===== src/DirectP2p/Admission.antt =====
-- Which peers enter the table of
-- src/xmpp_p2p_chat/connection_service/transports/direct_p2p.py.
use serverless_xmpp.Base.{
  String, true, false, ◌≡◌, refl, arith, some, none, truthy, contains, Unicode, eq_iff, ◌==◌, ◌⧺◌,
  ◌∙◌, strip, starts_with, remove_prefix, if◌then◌else◌, Bool-cases, inl, inr,
}
use serverless_xmpp.Base.Outcome.{ok}
use serverless_xmpp.Base.Table
use serverless_xmpp.DirectP2p.{
  DirectP2p, PeerEndpoint, Dialled, refused, opened, connect_peer, dial, handle_inbound,
  turned_away, remote_of, verify_fingerprint, is_pinned, is_live, endpoint_key, peer_key,
  register_peer, normalize_fingerprint, without_blanks,
}

normalize_fingerprint_lem :
    (u : Unicode) (value : String)
    → let cleaned = without_blanks (u.upper (strip u.is_space value)) in
      normalize_fingerprint u value
      ≡ (if starts_with cleaned "SHA256:" then cleaned else "SHA256:" ⧺ cleaned)
unfolding normalize_fingerprint remove_prefix
normalize_fingerprint_lem u value =
    elim (Bool-cases (starts_with (without_blanks (u.upper (strip u.is_space value))) "SHA256:")) [
      | inl e ↦ rw (normalize_fingerprint, e) refl
      | inr e ↦ rw (normalize_fingerprint, remove_prefix, e) refl
    ]

-- A peer that is dialled and has a pinned fingerprint enters the table only if it shows a certificate
-- whose digest, after "SHA256:", is the pinned text: trimmed, in upper case and without blanks, with
-- "SHA256:" in front where that is missing.
pub connect_peer-IsVerified :
    (u : Unicode) (endpoint : PeerEndpoint) (pinned : String) (dialled : Dialled) (t t' : DirectP2p)
    → is_live (u.lower endpoint.jid) t ≡ false
    → endpoint.fingerprint ≡ some pinned
    → truthy pinned ≡ true
    → connect_peer u endpoint dialled t ≡ (ok tt, t')
    → (digest : String) × (dialled ≡ opened (some digest))
      × (let cleaned = without_blanks (u.upper (strip u.is_space pinned)) in
          "SHA256:" ⧺ digest
          ≡ (if starts_with cleaned "SHA256:" then cleaned else "SHA256:" ⧺ cleaned))
      × (is_live (u.lower endpoint.jid) t' ≡ true)
unfolding connect_peer dial register_peer verify_fingerprint
connect_peer-IsVerified u endpoint pinned (refused exc) t t' d e p h = absurd (ground arith)
connect_peer-IsVerified u endpoint pinned (opened none) t t' d e p h = absurd (ground arith)
connect_peer-IsVerified u endpoint pinned (opened (some digest)) t t' d e p h = (
  digest,
  refl,
  (let matches : (("SHA256:" ⧺ digest) == normalize_fingerprint u pinned) ≡ true = ground arith in
      (eq_iff ("SHA256:" ⧺ digest) (normalize_fingerprint u pinned)).0 matches
      ∙ normalize_fingerprint_lem u pinned),
  ground (
    arith,
    eq_iff (u.lower endpoint.jid) (u.lower endpoint.jid),
    Table.find-upsert peer_key (u.lower endpoint.jid)
        (u.lower endpoint.jid, record { remote_jid = endpoint.jid; closing = false }) t.peers,
  ),
)

-- An inbound peer whose JID has a pinned fingerprint is turned away for another certificate; but one
-- that shows none is let in where self-signed certificates are allowed, whoever it is.
pub handle_inbound_without_certificate :
    (u : Unicode) (header : String) (key cert : String) (endpoint : PeerEndpoint) (t : DirectP2p)
    → contains header "<stream:stream" ≡ true
    → truthy (remote_of header) ≡ true
    → Table.find endpoint_key (u.lower (remote_of header)) t.peer_endpoints ≡ some (key, endpoint)
    → is_pinned endpoint.fingerprint ≡ true
    → t.allow_self_signed ≡ true
    → verify_fingerprint u (some cert) endpoint.fingerprint ≡ false
    → (handle_inbound u header (some cert) t ≡ t)
      × (is_live (u.lower (remote_of header)) (handle_inbound u header none t) ≡ true)
unfolding handle_inbound turned_away
handle_inbound_without_certificate u header key cert endpoint t c r f p a v = (
  ground arith,
  ground (
    arith,
    eq_iff (u.lower (remote_of header)) (u.lower (remote_of header)),
    Table.find-upsert peer_key (u.lower (remote_of header))
        (u.lower (remote_of header), record { remote_jid = remote_of header; closing = false })
        t.peers,
  ),
)
