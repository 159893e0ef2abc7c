-- ===== src/AddressBookSync/Inbound.antt =====
-- Which elements change anything, in
-- src/xmpp_p2p_chat/connection_service/addressbook_sync.py.
use serverless_xmpp.Base.{
  ap, ap, ◌⊎◌, String, true, false, ◌≡◌, refl, arith, some, inl, inr, Bool-cases, ◌&&◌,
}
use serverless_xmpp.Base.Outcome.{ok, Result-cases}
use serverless_xmpp.Models.{Datetime}
use serverless_xmpp.Models.JsonData
use serverless_xmpp.Models.JsonData.{Json, Fields, str, obj, null, bool, int, number, arr}
use serverless_xmpp.Persistence.{save_sync_pending}
use serverless_xmpp.AddressBook.{Platform}
use serverless_xmpp.AddressBookSync.{
  pending_row, SyncService, Payload, no_payload, undecodable, decoded, is_trusted, accept,
  check_payload, handle_payload, handle_inbound_iq, store_pending,
}
use serverless_xmpp.AddressBookSync.Signature.{
  SyncPlatform, timestamp_valid, verify_payload, signature_of,
}
use serverless_xmpp.AddressBookSync.Signing.{verify_payload-is_signed}

module _ (p : Platform) (now : Datetime) (sp : SyncPlatform) where
  -- The service is on, the sender is a contact, the dict carries the digest of its other fields by
  -- the secret, and its time is within the skew.
  pub record IsAdmitted (bare : String) (d : Fields) (s : SyncService) : Type 0 where
    pub is_enabled : s.config.enabled ≡ true
    pub trusted : is_trusted p now sp (p.unicode.lower bare) s.book ≡ true
    pub has_signature : JsonData.get "signature" d ≡ some (str (signature_of sp s.config.secret d))
    pub fresh : timestamp_valid sp s.config (JsonData.get "timestamp" d) ≡ ok true

  check_payload-inversion :
      (pid from_jid : String) (d : Fields) (s s' : SyncService)
      → check_payload p now sp pid from_jid d s ≡ ok s'
      → (s' ≡ s)
        ⊎ ((verify_payload sp s.config d ≡ ok true)
            × (timestamp_valid sp s.config (JsonData.get "timestamp" d) ≡ ok true)
            × (accept p now sp pid from_jid d s ≡ ok s'))
  unfolding check_payload
  check_payload-inversion pid from_jid d s s' h =
      elim (Result-cases (verify_payload sp s.config d)) [
        | inr (x, e) ↦ absurd (ground arith)
        | inl (false, e) ↦ inl (ground arith)
        | inl (true, e) ↦
            elim (Result-cases (timestamp_valid sp s.config (JsonData.get "timestamp" d))) [
              | inr (x, f) ↦ absurd (ground arith)
              | inl (false, f) ↦ inl (ground arith)
              | inl (true, f) ↦ inr (e, f, ground arith)
            ]
      ]

  handle_payload-inversion :
      (pid from_jid : String) (payload : Payload) (s s' : SyncService)
      → handle_payload p now sp pid from_jid payload s ≡ ok s'
      → (s' ≡ s)
        ⊎ ((d : Fields) × (payload ≡ decoded (obj d))
            × (verify_payload sp s.config d ≡ ok true)
            × (timestamp_valid sp s.config (JsonData.get "timestamp" d) ≡ ok true)
            × (accept p now sp pid from_jid d s ≡ ok s'))
  unfolding handle_payload
  handle_payload-inversion pid from_jid no_payload s s' h = inl (ground arith)
  handle_payload-inversion pid from_jid undecodable s s' h = inl (ground arith)
  handle_payload-inversion pid from_jid (decoded null) s s' h = inl (ground arith)
  handle_payload-inversion pid from_jid (decoded (bool b)) s s' h = inl (ground arith)
  handle_payload-inversion pid from_jid (decoded (int n)) s s' h = inl (ground arith)
  handle_payload-inversion pid from_jid (decoded (number t)) s s' h = inl (ground arith)
  handle_payload-inversion pid from_jid (decoded (str t)) s s' h = inl (ground arith)
  handle_payload-inversion pid from_jid (decoded (arr l)) s s' h = inl (ground arith)
  handle_payload-inversion pid from_jid (decoded (obj d)) s s' h =
      elim (check_payload-inversion pid from_jid d s s' h) [
        | inl same ↦ inl same
        | inr (v, t, a) ↦ inr (d, refl, v, t, a)
      ]

  -- If the handling of an element raises nothing, then the service is as it was, or the service is
  -- on, the sender is a contact, the payload is a dict that carries the digest of its other fields
  -- by the shared secret and a time within the skew, and what follows is the acceptance of that dict.
  pub handle_inbound_iq-IsAdmitted :
      (pid bare : String) (payload : Payload) (s s' : SyncService)
      → handle_inbound_iq p now sp pid bare payload s ≡ ok s'
      → (s' ≡ s)
        ⊎ ((d : Fields) × (payload ≡ decoded (obj d))
            × IsAdmitted bare d s
            × (accept p now sp pid (p.unicode.lower bare) d s ≡ ok s'))
  unfolding handle_inbound_iq
  handle_inbound_iq-IsAdmitted pid bare payload s s' h =
      let from_jid = p.unicode.lower bare in
      elim (Bool-cases (s.config.enabled && is_trusted p now sp from_jid s.book)) [
        | inr closed ↦ inl (ground arith)
        | inl open_ ↦ elim (handle_payload-inversion pid from_jid payload s s' (ground arith)) [
          | inl same ↦ inl same
          | inr (d, e, v, t, a) ↦ inr (
            d,
            e,
            record {
              is_enabled = ground arith;
              trusted = ground arith;
              has_signature = (verify_payload-is_signed sp s.config d v).1;
              fresh = t;
            },
            a,
          )
        ]
      ]

  store_pending-book :
      (pid from_jid : String) (d : Fields) (s s' : SyncService)
      → store_pending p now sp pid from_jid d s ≡ ok s'
      → s'.book ≡ s.book
  unfolding store_pending
  store_pending-book pid from_jid d s s' h =
      elim (Result-cases (save_sync_pending (pending_row p now sp pid from_jid d) s.db)) [
        | inl (db, e) ↦ ground arith
        | inr (x, e) ↦ absurd (ground arith)
      ]

  -- Without `auto_apply` no element changes the address book: whatever arrives, the user decides.
  pub handle_inbound_iq_waits :
      (pid bare : String) (payload : Payload) (s s' : SyncService)
      → s.config.auto_apply ≡ false
      → handle_inbound_iq p now sp pid bare payload s ≡ ok s'
      → s'.book ≡ s.book
  handle_inbound_iq_waits pid bare payload s s' off h =
      elim (handle_inbound_iq-IsAdmitted pid bare payload s s' h) [
        | inl same ↦ ap (λ x. x.book) same
        | inr (d, e, w, a) ↦
            store_pending-book pid (p.unicode.lower bare) d s s' (unfold accept in ground arith)
      ]
