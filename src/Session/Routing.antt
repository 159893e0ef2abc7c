-- ===== src/Session/Routing.antt =====
-- Which transport a contact gets, in src/xmpp_p2p_chat/connection_service/session.py.
use serverless_xmpp.Base.{String, true, false, ◌≡◌, ◌≢◌, refl, arith, eq_iff, is_some}
use serverless_xmpp.Base.Outcome.{err, value_error}
use serverless_xmpp.Models.{Contact}
use serverless_xmpp.Session.{
  direct_p2p, xmpp_server, Transports, resolve_transport_name, get_transport, by_route,
}

module _ (net : Transports) (fallback : String) (c : Contact) where
  chosen_otherwise :
      c.preferred_transport ≢ "xmpp-server"
      → fallback ≡ "direct-p2p"
      → resolve_transport_name fallback c ≡ "direct-p2p"
  unfolding resolve_transport_name
  chosen_otherwise n f =
      ground (arith, eq_iff c.preferred_transport "xmpp-server", eq_iff fallback "direct-p2p")

  chosen_server :
      c.preferred_transport ≢ "direct-p2p"
      → fallback ≢ "direct-p2p"
      → resolve_transport_name fallback c ≢ "direct-p2p"
  unfolding resolve_transport_name
  chosen_server n f h = ground (
    arith,
    eq_iff c.preferred_transport "direct-p2p",
    eq_iff fallback "direct-p2p",
    eq_iff "xmpp-server" "direct-p2p",
  )

  -- The route to a contact: a contact that prefers XMPP goes by the server whatever endpoint it has;
  -- one with an endpoint goes directly if it prefers that, or prefers nothing and the default
  -- transport is the direct one; without an endpoint the direct default is refused.
  pub get_transport_lem :
      (c.preferred_transport ≡ "xmpp-server"
        → get_transport net fallback c ≡ by_route xmpp_server net.ensure_xmpp)
      × (is_some c.direct ≡ true
          → c.preferred_transport ≡ "direct-p2p"
          → get_transport net fallback c ≡ by_route direct_p2p (net.connect_peer c))
      × (is_some c.direct ≡ true
          → c.preferred_transport ≢ "xmpp-server"
          → fallback ≡ "direct-p2p"
          → get_transport net fallback c ≡ by_route direct_p2p (net.connect_peer c))
      × (is_some c.direct ≡ false
          → c.preferred_transport ≢ "xmpp-server"
          → fallback ≡ "direct-p2p"
          → get_transport net fallback c ≡ err value_error)
      × (c.preferred_transport ≢ "direct-p2p"
          → fallback ≢ "direct-p2p"
          → get_transport net fallback c ≡ by_route xmpp_server net.ensure_xmpp)
  unfolding get_transport
  get_transport_lem = (
    λ e. rw (e, resolve_transport_name) refl,
    λ d e. rw (e, resolve_transport_name, d) refl,
    λ d n f. rw (chosen_otherwise n f, d) refl,
    λ d n f. rw (chosen_otherwise n f, d) refl,
    λ n f.
        ground (arith, chosen_server n f, eq_iff (resolve_transport_name fallback c) "direct-p2p"),
  )
