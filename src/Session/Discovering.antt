-- ===== src/Session/Discovering.antt =====
-- `apply_discovered_endpoint` of src/xmpp_p2p_chat/connection_service/session.py: the endpoint that was
-- discovered for a contact goes into the address book.
pub mod Endpoints
use serverless_xmpp.Base.{
  ap, String, Bool, true, false, ◌||◌, ◌≡◌, ◌≢◌, ◌⊎◌, ◌++◌, All, inl, inr, refl, arith, Option,
  none, some, List, [], ◌∷◌, ◌==◌, if◌then◌else◌, eq_iff, ◌∙◌, Bool-cases, Option-cases,
}
use mathlib.Core.Path.{ap, subst, sym}
use serverless_xmpp.Base.Outcome.{Result, ok, err, ok-injective, ◌>>=◌}
use serverless_xmpp.Models.{Datetime, Contact, DirectEndpoint}
use serverless_xmpp.Models.JsonData.{Json, Fields, field, end, str, int, null, obj, get-set}
use serverless_xmpp.Models.JsonData
use serverless_xmpp.Models.Schema.{
  validate_fields, after_parse-inversion, ReadsEndpoints, text_or_null,
}
use serverless_xmpp.AddressBook.{Platform, AddressBook, get, update, merged}
use serverless_xmpp.AddressBook.Mutations.{IsChange, update_accepted, update_refused}
use serverless_xmpp.Discovery.{DiscoveredPeer, MdnsDiscovery, listed_peers}
use serverless_xmpp.Session.Links.{Links, register_p2p_peer, register_contact, endpoint_of}
use serverless_xmpp.DirectP2p.{DirectP2p, endpoint_key, register_peer}
use serverless_xmpp.Base.Table

-- `DirectEndpoint(...).model_dump(mode="json")` of a peer, and the preference for the direct way
unfoldable pub discovered_fields : DiscoveredPeer → Fields
discovered_fields peer =
    field "direct"
      (obj (
        field "host" (str peer.host) (
          field "port" (int peer.port)
            (field "public_key_fingerprint" (text_or_null peer.fingerprint) end))))
      (field "preferred_transport" (str "direct-p2p") end)

-- An endpoint that is more than a placeholder.
unfoldable pub has_real_endpoint : Contact → Bool
has_real_endpoint contact = elim contact.direct [
  | none ↦ false
  | some direct ↦
      if direct.host == "" || direct.host == "127.0.0.1" || direct.host == "0.0.0.0"
      then false
      else true
]

module _ (p : Platform) (now : Datetime) where
  abbrev pub Applied : Type 0
  Applied = Option Contact × AddressBook × Links

  unfoldable pub registered : Links → Contact × AddressBook → Result Applied
  registered l (contact, book) = ok (some contact, book, register_p2p_peer p.unicode contact l)

  -- The first peer with the contact's JID.
  unfoldable pub apply_peers :
      String → Contact → List DiscoveredPeer → AddressBook → Links → Result Applied
  unfolding has_real_endpoint registered discovered_fields
  apply_peers contact_id contact [] book l = ok (none, book, l)
  apply_peers contact_id contact (peer ∷ peers) book l =
      let rest = apply_peers contact_id contact peers book l in
      if p.unicode.lower peer.jid == p.unicode.lower contact.jid
      then if has_real_endpoint contact
        then ok (some contact, book, l)
        else update p now contact_id (discovered_fields peer) book >>= registered l
      else rest

  unfoldable pub apply_discovered_endpoint : String → AddressBook → Links → Result Applied
  unfolding apply_peers
  apply_discovered_endpoint contact_id book l = elim (get contact_id book) [
    | none ↦ ok (none, book, l)
    | some contact ↦ elim l.mdns [
      | none ↦ ok (none, book, l)
      | some d ↦ apply_peers contact_id contact (listed_peers d) book l
    ]
  ]

  applied-book :
      (contact_id : String) (peer : DiscoveredPeer) (book : AddressBook) (l : Links)
      (r : Result (Contact × AddressBook)) (applied : Applied)
      → (r >>= registered l) ≡ ok applied
      → (updated : Contact) × (r ≡ ok (updated, applied.1))
  unfolding registered
  applied-book contact_id peer book l (err e) applied h = absurd (cc h)
  applied-book contact_id peer book l (ok (updated, book')) applied h =
      (updated, ap (λ (x : Applied). ok (updated, x.1)) (ok-injective h))

  -- The address book is left as it is, or comes from an update by a peer's fields.
  abbrev pub IsKept : String → AddressBook → Applied → Type 0
  IsKept contact_id book applied =
      (applied.1 ≡ book)
      ⊎ ((peer : DiscoveredPeer) × (updated : Contact) × (update p now contact_id
              (discovered_fields peer) book
            ≡ ok (updated, applied.1)))

  apply_peers-IsKept :
      (contact_id : String) (contact : Contact) (peers : List DiscoveredPeer) (book : AddressBook)
      (l : Links) (applied : Applied)
      → apply_peers contact_id contact peers book l ≡ ok applied
      → IsKept contact_id book applied
  unfolding apply_peers
  apply_peers-IsKept contact_id contact [] book l applied h =
      inl (ap (λ (x : Applied). x.1) (sym (ok-injective h)))
  apply_peers-IsKept contact_id contact (peer ∷ peers) book l applied h =
      elim (Bool-cases (p.unicode.lower peer.jid == p.unicode.lower contact.jid)) [
        | inr e ↦ apply_peers-IsKept contact_id contact peers book l applied (ground arith)
        | inl e ↦ elim (Bool-cases (has_real_endpoint contact)) [
          | inl f ↦
              let same : ok (some contact, book, l) ≡ ok applied = ground arith in
              inl (ap (λ (x : Applied). x.1) (sym (ok-injective same)))
          | inr f ↦
              let (updated, replaced) =
                applied-book contact_id peer book l
                  (update p now contact_id (discovered_fields peer) book) applied (ground arith) in
              inr (peer, updated, replaced)
        ]
      ]

  pub apply_discovered_endpoint-IsKept :
      (contact_id : String) (book : AddressBook) (l : Links) (applied : Applied)
      → apply_discovered_endpoint contact_id book l ≡ ok applied
      → IsKept contact_id book applied
  unfolding apply_discovered_endpoint
  apply_discovered_endpoint-IsKept contact_id book l applied h =
      elim (Option-cases (get contact_id book)) [
        | inl e ↦
            let same : ok (none, book, l) ≡ ok applied = ground arith in
            inl (ap (λ (x : Applied). x.1) (sym (ok-injective same)))
        | inr (contact, e) ↦ elim (Option-cases l.mdns) [
          | inl f ↦
              let same : ok (none, book, l) ≡ ok applied = ground arith in
              inl (ap (λ (x : Applied). x.1) (sym (ok-injective same)))
          | inr (d, f) ↦
              apply_peers-IsKept contact_id contact (listed_peers d) book l applied (ground arith)
        ]
      ]
