-- ===== src/AddressBookSync/Outbound.antt =====
-- What is sent, in src/xmpp_p2p_chat/connection_service/addressbook_sync.py.
use serverless_xmpp.Base.{inl, inr, String, ◌≡◌, refl, arith, some, none, List}
use serverless_xmpp.Base.Outcome.{Result-cases, ok}
use serverless_xmpp.Models.{Datetime}
use serverless_xmpp.Models.JsonData
use serverless_xmpp.Models.JsonData.{Json, Fields, str, get-set}
use serverless_xmpp.AddressBook.{Platform, AddressBook}
use serverless_xmpp.AddressBookSync.{SyncService, apply_payload}
use serverless_xmpp.AddressBookSync.Signature.{sign_payload, SyncPlatform, AddressBookSyncConfig}
use serverless_xmpp.AddressBookSync.Updates.{build_update_payload, sync_now, announce, signed}

module _ (p : Platform) (now : Datetime) (sp : SyncPlatform) where
  signed-action :
      (c : AddressBookSyncConfig) (x d : Fields)
      → signed p now sp c x ≡ ok d
      → JsonData.get "action" d ≡ JsonData.get "action" x
  unfolding signed
  signed-action c x d h = elim (Result-cases (sign_payload sp c x)) [
    | inl (signature, e) ↦ ground (arith, get-set "action" "signature" (str signature) x)
    | inr (y, e) ↦ absurd (ground arith)
  ]

  announce-action :
      (ids jids : List String) (s : SyncService) (d : Fields)
      → announce p now sp ids s ≡ ok (jids, d)
      → JsonData.get "action" d ≡ some (str "announce")
  unfolding announce
  announce-action ids jids s d h =
      elim (Result-cases (build_update_payload p now sp "update" none (some "__book_meta__") s)) [
        | inr (y, e) ↦ absurd (ground arith)
        | inl (payload, e) ↦
            let announced = JsonData.set "action" (str "announce") payload in
            elim (Result-cases (signed p now sp s.config announced)) [
              | inr (y, e') ↦ absurd (ground arith)
              | inl (x, e') ↦ ground (
                arith,
                signed-action s.config announced x e',
                get-set "action" "action" (str "announce") payload,
              )
            ]
      ]

  -- What `sync_now` sends has the action "announce"; a receiver that applies it changes nothing, since
  -- that is none of the three actions that are known.
  pub sync_now_is_ignored :
      (ids jids : List String) (s : SyncService) (d : Fields) (book : AddressBook)
      → sync_now p now sp ids s ≡ ok (jids, d)
      → (JsonData.get "action" d ≡ some (str "announce")) × (apply_payload p now d book ≡ ok book)
  unfolding sync_now apply_payload
  sync_now_is_ignored ids jids s d book h =
      let named = announce-action ids jids s d (ground arith) in
      (named, rw (apply_payload, named) refl)
