-- ===== src/Session/Discovering/Endpoints.antt =====
-- What `apply_discovered_endpoint` of src/xmpp_p2p_chat/connection_service/session.py changes.
use serverless_xmpp.Base.{
  ap, String, true, false, ◌≡◌, ◌≢◌, ◌⊎◌, ◌++◌, All, inl, inr, refl, arith, Option, none, some,
  List, [], ◌∷◌, ◌==◌, if◌then◌else◌, eq_iff, ◌∙◌, Bool-cases, Option-cases,
}
use mathlib.Core.Path.{ap, subst, sym}
use serverless_xmpp.Base.Outcome.{Result, ok, err, ok-injective, ◌>>=◌}
use serverless_xmpp.Models.{Datetime, Contact, DirectEndpoint}
use serverless_xmpp.Models.JsonData.{Json, Fields, field, end, str, int, null, obj, get-set}
use serverless_xmpp.Models.JsonData
use serverless_xmpp.Models.Schema.{
  validate_fields, after_parse-inversion, ReadsEndpoints, text_or_null,
}
use serverless_xmpp.AddressBook.{Platform, AddressBook, get, update, merged}
use serverless_xmpp.AddressBook.Mutations.{IsChange, update_accepted, update_refused}
use serverless_xmpp.Discovery.{DiscoveredPeer, MdnsDiscovery, listed_peers}
use serverless_xmpp.Session.Links.{Links, register_p2p_peer, register_contact, endpoint_of}
use serverless_xmpp.DirectP2p.{DirectP2p, endpoint_key, register_peer}
use serverless_xmpp.Base.Table
use serverless_xmpp.Session.Discovering.{
  Applied, discovered_fields, has_real_endpoint, registered, apply_peers, apply_discovered_endpoint,
}

module _ (p : Platform) (now : Datetime) where
  -- An endpoint that stands for none: there is none, or it names no host or the machine itself.
  abbrev pub IsPlaceholder : Option DirectEndpoint → Type 0
  IsPlaceholder none = Unit
  IsPlaceholder (some e) = (e.host ≡ "") ⊎ ((e.host ≡ "127.0.0.1") ⊎ (e.host ≡ "0.0.0.0"))

  abbrev pub IsReal : Option DirectEndpoint → Type 0
  IsReal endpoint =
      (e : DirectEndpoint) × (endpoint ≡ some e)
      × (e.host ≢ "")
      × (e.host ≢ "127.0.0.1")
      × (e.host ≢ "0.0.0.0")

  abbrev pub IsOther : Contact → DiscoveredPeer → Type 0
  IsOther contact q = p.unicode.lower q.jid ≢ p.unicode.lower contact.jid

  -- The first of the peers that has the JID of the contact.
  pub record IsFirst (contact : Contact) (peer : DiscoveredPeer) (peers : List DiscoveredPeer)
      : Type 0 where
    pub before : List DiscoveredPeer
    pub after : List DiscoveredPeer
    pub split : peers ≡ before ++ peer ∷ after
    pub others : All (IsOther contact) before
    pub same_jid : p.unicode.lower peer.jid ≡ p.unicode.lower contact.jid

  -- What an application of a peer changes: the one contact, by one with the endpoint of the peer, which
  -- the direct transport, if there is one, has for its JID then.
  pub record IsApplied (contact_id : String) (peer : DiscoveredPeer) (book : AddressBook)
      (l : Links) (applied : Applied p now) : Type 0 where
    pub updated : Contact
    pub result : applied.0 ≡ some updated
    pub direct :
        updated.direct
        ≡ some (record {
          host = peer.host;
          port = peer.port;
          public_key_fingerprint = peer.fingerprint;
        })
    pub changed : IsChange p book applied.1
    pub lookups :
        (j : String) → get j applied.1 ≡ (if contact_id == j then some updated else get j book)
    pub known :
        (t : DirectP2p)
        → l.p2p ≡ some t
        → (t' : DirectP2p) × (applied.2.p2p ≡ some t')
          × (Table.find endpoint_key (p.unicode.lower updated.jid) t'.peer_endpoints
              ≡ some (
                p.unicode.lower updated.jid,
                record {
                  jid = updated.jid;
                  host = peer.host;
                  port = peer.port;
                  fingerprint = peer.fingerprint;
                },
              ))

  has_real_endpoint-IsReal :
      (contact : Contact) → has_real_endpoint contact ≡ true → IsReal contact.direct
  unfolding has_real_endpoint
  has_real_endpoint-IsReal contact h = elim (Option-cases contact.direct) [
    | inl e ↦ absurd (ground (arith, e, h))
    | inr (d, e) ↦ (
      d,
      e,
      (λ x. ground (arith, e, h, x, eq_iff d.host "")),
      (λ x. ground (arith, e, h, x, eq_iff d.host "127.0.0.1")),
      (λ x. ground (arith, e, h, x, eq_iff d.host "0.0.0.0")),
    )
  ]

  has_real_endpoint-IsPlaceholder :
      (contact : Contact) → has_real_endpoint contact ≡ false → IsPlaceholder contact.direct
  unfolding has_real_endpoint
  has_real_endpoint-IsPlaceholder contact h = elim (Option-cases contact.direct) [
    | inl e ↦ rw e tt
    | inr (d, e) ↦
        rw e (
          ground
            (arith, e, h, eq_iff d.host "", eq_iff d.host "127.0.0.1", eq_iff d.host "0.0.0.0"))
  ]

  unchanged :
      (found : Option Contact) (book : AddressBook) (l : Links) (applied : Applied p now)
      → ok (found, book, l) ≡ ok applied
      → (applied.1 ≡ book) × (applied.2 ≡ l)
  unchanged found book l applied h =
      let e = sym (ok-injective h) in (ap (λ x. x.1) e, ap (λ x. x.2) e)

  -- What the direct transport has for a contact that was registered.
  registered-known :
      (contact : Contact) (e : DirectEndpoint) (l : Links) (t : DirectP2p)
      → contact.direct ≡ some e
      → l.p2p ≡ some t
      → (t' : DirectP2p) × ((register_p2p_peer p.unicode contact l).p2p ≡ some t')
        × (Table.find endpoint_key (p.unicode.lower contact.jid) t'.peer_endpoints
            ≡ some (
              p.unicode.lower contact.jid,
              record {
                jid = contact.jid;
                host = e.host;
                port = e.port;
                fingerprint = e.public_key_fingerprint;
              },
            ))
  unfolding register_p2p_peer register_contact register_peer endpoint_of
  registered-known contact e l t d h = (
    register_peer p.unicode (endpoint_of contact e) t,
    rw (register_p2p_peer, h, register_contact, d) refl,
    ground (
      arith,
      eq_iff (p.unicode.lower contact.jid) (p.unicode.lower contact.jid),
      Table.find-upsert endpoint_key (p.unicode.lower contact.jid)
          (p.unicode.lower contact.jid, endpoint_of contact e) t.peer_endpoints,
    ),
  )

  module _ (reads : ReadsEndpoints p.schema) (contact_id : String) (contact : Contact)
      (book : AddressBook) (l : Links) (has : get contact_id book ≡ some contact) where
    -- The fields that are validated have the endpoint of the peer.
    validated-direct :
        (peer : DiscoveredPeer) (updated : Contact)
        → validate_fields p.unicode p.schema
            (merged p now contact_id (discovered_fields peer) contact)
          ≡ ok updated
        → updated.direct
          ≡ some (record {
            host = peer.host;
            port = peer.port;
            public_key_fingerprint = peer.fingerprint;
          })
    unfolding validate_fields merged discovered_fields JsonData.update
    validated-direct peer updated v =
        let fields = merged p now contact_id (discovered_fields peer) contact in
        let endpoint : DirectEndpoint = record {
          host = peer.host;
          port = peer.port;
          public_key_fingerprint = peer.fingerprint;
        } in
        let (c0, e, m, same) =
          after_parse-inversion p.unicode p.schema (p.schema.parse fields) updated v in
        let spelled_endpoint : Json = obj (
          field "host" (str peer.host) (
            field "port" (int peer.port)
              (field "public_key_fingerprint" (text_or_null peer.fingerprint) end))) in
        let spelled : JsonData.get "direct" fields ≡ some spelled_endpoint =
          (let old = p.schema.dump contact in
            let moved = JsonData.set "direct" spelled_endpoint old in
            let preferred = JsonData.set "preferred_transport" (str "direct-p2p") moved in
            get-set "direct" "updated_at" (str now) (JsonData.set "id" (str contact_id) preferred)
            ∙ get-set "direct" "id" (str contact_id) preferred
            ∙ get-set "direct" "preferred_transport" (str "direct-p2p") moved
            ∙ get-set "direct" "direct" spelled_endpoint old) in
        ap (λ (c : Contact). c.direct) same ∙ reads fields c0 endpoint e spelled

    applied_lem :
        (peer : DiscoveredPeer) (validated : Result Contact) (applied : Applied p now)
        → validate_fields p.unicode p.schema
            (merged p now contact_id (discovered_fields peer) contact)
          ≡ validated
        → (update p now contact_id (discovered_fields peer) book >>= registered p now l)
          ≡ ok applied
        → IsApplied contact_id peer book l applied
    unfolding registered
    applied_lem peer (err e) applied v h =
        let refused =
          (update_refused p now book contact_id (discovered_fields peer)).1 contact e has v in
        let bad : (err e >>= registered p now l) ≡ ok applied =
          subst (λ r. (r >>= registered p now l) ≡ ok applied) refused h in
        absurd (cc bad)
    applied_lem peer (ok updated) applied v h =
        let (book', e, id, change, lookups) =
          update_accepted p now book contact_id (discovered_fields peer) contact updated has v in
        let reached : (some updated, book', register_p2p_peer p.unicode updated l) ≡ applied =
          ok-injective (subst (λ r. (r >>= registered p now l) ≡ ok applied) e h) in
        let direct = validated-direct peer updated v in
        let endpoint : DirectEndpoint = record {
          host = peer.host;
          port = peer.port;
          public_key_fingerprint = peer.fingerprint;
        } in
        subst (IsApplied contact_id peer book l) reached (record {
          updated = updated;
          result = refl;
          direct = direct;
          changed = change;
          lookups = lookups;
          known = λ t k. registered-known updated endpoint l t direct k;
        })

    apply_peers_lem :
        (peers : List DiscoveredPeer) (applied : Applied p now)
        → apply_peers p now contact_id contact peers book l ≡ ok applied
        → ((applied.1 ≡ book)
            × (applied.2 ≡ l)
            × (All (IsOther contact) peers ⊎ IsReal contact.direct))
          ⊎ ((peer : DiscoveredPeer) × IsFirst contact peer peers
              × IsPlaceholder contact.direct
              × IsApplied contact_id peer book l applied)
    unfolding apply_peers
    apply_peers_lem [] applied h =
        let same = unchanged none book l applied h in inl (same.0, same.1, inl tt)
    apply_peers_lem (peer ∷ peers) applied h =
        elim (Bool-cases (p.unicode.lower peer.jid == p.unicode.lower contact.jid)) [
          | inr e ↦
              let other : IsOther contact peer = λ same.
                ground (
                  arith,
                  e,
                  same,
                  eq_iff (p.unicode.lower peer.jid) (p.unicode.lower contact.jid),
                ) in
              elim (apply_peers_lem peers applied (ground arith)) [
                | inl (b, k, inl others) ↦ inl (b, k, inl (other, others))
                | inl (b, k, inr real) ↦ inl (b, k, inr real)
                | inr (q, first, place, done) ↦ inr (
                  q,
                  record {
                    before = peer ∷ first.before;
                    after = first.after;
                    split = ap (◌∷◌ peer) first.split;
                    others = (other, first.others);
                    same_jid = first.same_jid;
                  },
                  place,
                  done,
                )
              ]
          | inl e ↦
              let same = (eq_iff (p.unicode.lower peer.jid) (p.unicode.lower contact.jid)).0 e in
              elim (Bool-cases (has_real_endpoint contact)) [
                | inl f ↦
                    let kept = unchanged (some contact) book l applied (ground arith) in
                    inl (kept.0, kept.1, inr (has_real_endpoint-IsReal contact f))
                | inr f ↦ inr (
                  peer,
                  record { before = []; after = peers; split = refl; others = tt; same_jid = same },
                  has_real_endpoint-IsPlaceholder contact f,
                  applied_lem peer
                      (validate_fields p.unicode p.schema
                        (merged p now contact_id (discovered_fields peer) contact))
                      applied refl (ground arith),
                )
              ]
        ]

  -- When the discovered endpoint of a contact is applied and nothing raises, then either nothing
  -- changes, and there is no such contact, no discovery, no listed peer with the contact's JID, or a
  -- host that the contact comes with and that is not the machine itself; or the contact has none
  -- such, and it changes alone: it has the host, the port and the fingerprint of the first listed
  -- peer with its JID then, and so has the direct transport. Assumed is that a contact is read with
  -- the endpoint that its dict spells.
  pub apply_discovered_endpoint_lem :
      ReadsEndpoints p.schema
      → (contact_id : String) (book : AddressBook) (l : Links) (applied : Applied p now)
      → apply_discovered_endpoint p now contact_id book l ≡ ok applied
      → ((applied.1 ≡ book)
          × (applied.2 ≡ l)
          × ((get contact_id book ≡ none)
              ⊎ ((l.mdns ≡ none)
                  ⊎ ((contact : Contact) × (d : MdnsDiscovery) × (get contact_id book
                        ≡ some contact)
                      × (l.mdns ≡ some d)
                      × (All (IsOther contact) (listed_peers d) ⊎ IsReal contact.direct)))))
        ⊎ ((contact : Contact) × (d : MdnsDiscovery) × (peer : DiscoveredPeer) × (get contact_id
                book
              ≡ some contact)
            × (l.mdns ≡ some d)
            × IsFirst contact peer (listed_peers d)
            × IsPlaceholder contact.direct
            × IsApplied contact_id peer book l applied)
  unfolding apply_discovered_endpoint
  apply_discovered_endpoint_lem reads contact_id book l applied h =
      elim (Option-cases (get contact_id book)) [
        | inl e ↦
            let same = unchanged none book l applied (ground arith) in inl (same.0, same.1, inl e)
        | inr (contact, e) ↦ elim (Option-cases l.mdns) [
          | inl f ↦
              let same = unchanged none book l applied (ground arith) in
              inl (same.0, same.1, inr (inl f))
          | inr (d, f) ↦
              elim (apply_peers_lem reads contact_id contact book l e (listed_peers d) applied
                (ground arith)) [
                  | inl (b, k, why) ↦ inl (b, k, inr (inr (contact, d, e, f, why)))
                  | inr (peer, first, place, done) ↦
                      inr (contact, d, peer, e, f, first, place, done)
                ]
        ]
      ]
