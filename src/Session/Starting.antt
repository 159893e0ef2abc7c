-- ===== src/Session/Starting.antt =====
-- What a start of the direct transport leads to, in
-- src/xmpp_p2p_chat/connection_service/session.py.
use serverless_xmpp.Base.{
  ◌∙◌, sym, ap, some, none, Bool, true, not, ◌||◌, ◌≡◌, refl, arith, List, [], ◌∷◌, Unicode,
  is_some, All, eq_iff, inl, inr, Option-cases,
}
use serverless_xmpp.Base.Table
use serverless_xmpp.Config.{AppConfig}
use serverless_xmpp.Models.{Contact}
use serverless_xmpp.DirectP2p.{DirectP2p, endpoint_key, register_peer}
use serverless_xmpp.Session.Links.{
  new_transport, the_transport, open_listener, ensure_p2p, Links, Answers, ensure_mdns, make_mdns,
  started_mdns, register_contacts, register_contact, endpoint_of,
}
use serverless_xmpp.DirectP2p.Listening.{connect, certify, listen}
use serverless_xmpp.Base.Outcome.{ok, Result-cases}

module _ (u : Unicode) where
  -- The transport has an endpoint for the JID of the contact, if the contact has one.
  unfoldable pub knows : DirectP2p → Contact → Bool
  knows t contact =
      not (is_some contact.direct)
      || is_some (Table.find endpoint_key (u.lower contact.jid) t.peer_endpoints)

  register_contact-knows :
      (contact other : Contact) (t : DirectP2p)
      → knows t other ≡ true
      → knows (register_contact u contact t) other ≡ true
  unfolding knows register_contact endpoint_of register_peer
  register_contact-knows contact other t h = elim (Option-cases contact.direct) [
    | inl e ↦ rw e h
    | inr (direct, e) ↦ rw e (
        ground (
          arith,
          Table.find-upsert endpoint_key (u.lower other.jid)
              (u.lower contact.jid, endpoint_of contact direct) t.peer_endpoints,
        ))
  ]

  register_contact_self :
      (contact : Contact) (t : DirectP2p) → knows (register_contact u contact t) contact ≡ true
  unfolding knows register_contact endpoint_of register_peer
  register_contact_self contact t = elim (Option-cases contact.direct) [
    | inl e ↦ rw e refl
    | inr (direct, e) ↦ rw e (
        ground (
          arith,
          Table.find-upsert endpoint_key (u.lower contact.jid)
              (u.lower contact.jid, endpoint_of contact direct) t.peer_endpoints,
          eq_iff (u.lower contact.jid) (u.lower contact.jid),
        ))
  ]

  register_contacts_kept :
      (contacts : List Contact) (other : Contact) (t : DirectP2p)
      → knows t other ≡ true
      → knows (register_contacts u contacts t) other ≡ true
  unfolding register_contacts
  register_contacts_kept [] other t h = h
  register_contacts_kept (contact ∷ contacts) other t h =
      register_contacts_kept contacts other (register_contact u contact t)
        (register_contact-knows contact other t h)

  register_contacts-knows :
      (contacts : List Contact) (t : DirectP2p)
      → All (λ contact. knows (register_contacts u contacts t) contact ≡ true) contacts
  unfolding register_contacts
  register_contacts-knows [] t = tt
  register_contacts-knows (contact ∷ contacts) t = (
    register_contacts_kept contacts contact (register_contact u contact t)
        (register_contact_self contact t),
    register_contacts-knows contacts (register_contact u contact t),
  )

  module _ (c : AppConfig) (contacts : List Contact) (answers : Answers) where
    ensure_mdns-p2p : (l : Links) → (ensure_mdns c answers.register l).1.p2p ≡ l.p2p
    unfolding ensure_mdns make_mdns started_mdns
    ensure_mdns-p2p l = ground arith

    connect-open :
        (t : DirectP2p) (done : Unit)
        → (connect answers.certificates answers.listen t).0 ≡ ok done
        → let t' = (connect answers.certificates answers.listen t).1 in
          (t'.listening ≡ true) × (t'.peer_endpoints ≡ t.peer_endpoints)
    unfolding connect certify listen
    connect-open t done h =
        ground (arith, Result-cases answers.certificates, Result-cases answers.listen)

    -- A direct transport that is started where there was none listens, and has an endpoint for every
    -- contact of the address book that comes with one; whether the discovery is announced or not.
    pub ensure_p2p-knows :
        (l l' : Links)
        → l.p2p ≡ none
        → ensure_p2p u c contacts answers l ≡ (ok tt, l')
        → (t : DirectP2p) × (l'.p2p ≡ some t)
          × (t.listening ≡ true)
          × All (λ contact. knows t contact ≡ true) contacts
    unfolding ensure_p2p open_listener
    ensure_p2p-knows l l' new h =
        let t0 = the_transport u c contacts answers l in
        let r = connect answers.certificates answers.listen t0 in
        elim (Result-cases r.0) [
          | inr (e, f) ↦ absurd (ground arith)
          | inl (done, f) ↦
              let open_ = connect-open t0 done f in
              let same : l'.p2p ≡ some r.1 =
                let reached : ensure_mdns c answers.register (record l { p2p = some r.1 })
                    ≡ (ok tt, l') =
                  ground arith in
                ap (λ x. x.1.p2p) (sym reached) ∙ ensure_mdns-p2p (record l { p2p = some r.1 }) in
              (
                r.1,
                same,
                open_.0,
                unfold knows the_transport in
                    rw (open_.1, new) (register_contacts-knows contacts (new_transport c)),
              )
        ]
