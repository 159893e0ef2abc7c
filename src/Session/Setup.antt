-- ===== src/Session/Setup.antt =====
-- Which transports a session needs, with which password, and what it says of them:
-- src/xmpp_p2p_chat/connection_service/session.py and common/credentials.py. `keyring` is the look-up in the keyring of the system.
use serverless_xmpp.Base.{
  String, Bool, true, false, ◌≡◌, arith, ◌&&◌, ◌||◌, Option, none, some, List, [], ◌∷◌, ◌++◌, ◌==◌,
  if◌then◌else◌, truthy, is_some, any, starts_with, remove_prefix, inl, inr, Option-cases,
}
use serverless_xmpp.Base.Outcome.{Result, ok, err, value_error}
use serverless_xmpp.Config.{AppConfig, effective_local_jid}
use serverless_xmpp.Models.{Contact, ContactCredentials, TransportStatus, disconnected}

abbrev pub nonempty : Option String → Bool
nonempty none = false
nonempty (some s) = truthy s

module _ (keyring : String → Option String) where
  unfoldable pub by_ref : Option String → Option String
  by_ref none = none
  by_ref (some s) =
      if truthy s && starts_with s "keyring:" then keyring (remove_prefix s "keyring:") else none

  unfoldable pub resolve_password : Option ContactCredentials → Option String
  unfolding by_ref
  resolve_password none = none
  resolve_password (some c) = if nonempty c.password then c.password else by_ref c.password_ref

  abbrev pub text_or_none : String → Option String
  text_or_none s = if truthy s then some s else none

  unfoldable pub configured_password : AppConfig → Option String
  configured_password c = resolve_password (
      some (record {
        username = none;
        password_ref = text_or_none c.xmpp.password_ref;
        password = text_or_none c.xmpp.password;
      }))

  abbrev pub secret_or : Option String → Option String → Option String
  secret_or secret other = if nonempty secret then secret else other

  -- `_resolve_xmpp_password`, for a contact or for none
  unfoldable pub resolve_xmpp_password : AppConfig → Option Contact → Option String
  resolve_xmpp_password c none = configured_password c
  resolve_xmpp_password c (some contact) =
      secret_or (resolve_password contact.credentials) (configured_password c)

  unfoldable pub needs_p2p : AppConfig → List Contact → Bool
  needs_p2p c contacts =
      truthy c.p2p.local_jid
      || any (λ x. x.preferred_transport == "direct-p2p" || is_some x.direct) contacts

  unfoldable pub needs_xmpp : AppConfig → List Contact → Bool
  needs_xmpp c contacts =
      if truthy c.xmpp.jid && nonempty (resolve_xmpp_password c none)
      then c.default_transport == "xmpp-server"
        || any (λ x. x.preferred_transport == "xmpp-server") contacts
      else false

  -- The password that `_ensure_xmpp` makes a transport with.
  unfoldable pub transport_password : AppConfig → Result String
  transport_password c = elim (resolve_xmpp_password c none) [
    | none ↦ err value_error
    | some password ↦ if truthy password then ok password else err value_error
  ]

  abbrev pub down : String → Option String → TransportStatus
  down transport jid = record {
    transport = transport;
    state = disconnected;
    error = none;
    jid = jid;
    error_condition = none;
    error_type = none;
    stream_management = none;
  }

  abbrev pub part : Option TransportStatus → Bool → TransportStatus → List TransportStatus
  part (some s) needed missing = s ∷ []
  part none needed missing = if needed then missing ∷ [] else []

  abbrev pub or_default : AppConfig → List TransportStatus → List TransportStatus
  or_default c [] = down c.default_transport none ∷ []
  or_default c (s ∷ statuses) = s ∷ statuses

  -- Of the direct transport and of the one by the server, where they are.
  unfoldable pub connection_status :
      AppConfig
      → List Contact
      → Option TransportStatus
      → Option TransportStatus
      → List TransportStatus
  unfolding needs_p2p needs_xmpp
  connection_status c contacts p2p xmpp = or_default c (
      part p2p (needs_p2p c contacts) (down "direct-p2p" (some (effective_local_jid c)))
      ++ part xmpp (needs_xmpp c contacts) (down "xmpp-server" (text_or_none c.xmpp.jid)))

  -- A session that needs the server's transport has the password to make it with.
  pub needs_xmpp-has_password :
      (c : AppConfig) (contacts : List Contact)
      → needs_xmpp c contacts ≡ true
      → (password : String) × (transport_password c ≡ ok password) × (truthy password ≡ true)
  unfolding needs_xmpp transport_password
  needs_xmpp-has_password c contacts h = elim (Option-cases (resolve_xmpp_password c none)) [
    | inl missing ↦ absurd (ground arith)
    | inr (password, e) ↦ (password, ground arith, ground arith)
  ]
