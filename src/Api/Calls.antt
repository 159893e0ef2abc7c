-- ===== src/Api/Calls.antt =====
-- What no sequence of calls can break, for the methods of
-- src/xmpp_p2p_chat/connection_service/api.py.
use serverless_xmpp.Base.{
  true, false, none, some, true, String, Bool, not, ◌&&◌, sym, Option, truthy, inl, inr, Bool-cases,
  Option-cases,
}
use mathlib.Core.Path.{subst}
use serverless_xmpp.Base.Outcome.{ok-injective, ok, chain-ok, ◌>>=◌}
use serverless_xmpp.Models.JsonData.{Json}
use serverless_xmpp.AddressBook.Mutations.{IsConsistent}
use serverless_xmpp.Session.{send_message, start_chat}
use serverless_xmpp.Session.Books.{send_message-book, start_chat-book, reconnect-book}
use serverless_xmpp.Api.Service.{with_manager, ApiPlatform, Call, Service, finish, required}
use serverless_xmpp.Api.Consistency.{HasGoodBook, finish-keeps}
use serverless_xmpp.Api.SyncMethods.{
  found_or_not, reject_pending_sync_update, asked, synced, addressbook_enable_sync,
  addressbook_reject_pending_update, addressbook_sync_now, enable_addressbook_sync,
}
use serverless_xmpp.Api.ChatMethods.{
  presence_set, message_sent, chat_start, chat_started, chat_send_message, chat_and_body,
  connection_reconnect,
}
use serverless_xmpp.Models.Schema.{LowerKeepsJids}
use serverless_xmpp.AddressBook.Mutations.{update-IsConsistent}
use serverless_xmpp.Session.Discovering.{
  Applied, apply_discovered_endpoint, apply_discovered_endpoint-IsKept, discovered_fields,
}
use serverless_xmpp.Api.{Outcome}
use serverless_xmpp.Api.Consistency.{
  addressbook_add-keeps, addressbook_update-keeps, addressbook_remove-keeps,
  addressbook_reload-keeps,
}
use serverless_xmpp.Api.Dispatch.{dispatch_text, dispatch_sync, dispatch_other, unknown_method}
use serverless_xmpp.Api.BookMethods.{addressbook_list, addressbook_status}
use serverless_xmpp.Api.SyncMethods.{
  sync_status, addressbook_enable_sync, asked, addressbook_sync_now, synced,
  addressbook_get_pending_updates, addressbook_reject_pending_update, reject_pending_sync_update,
  found_or_not, ok_answer,
}
use serverless_xmpp.Api.ChatMethods.{
  applied, discovery_apply, chat_get_history, presence_set, connection_status_method,
  discovery_list, system_health, system_shutdown,
}
use serverless_xmpp.Models.JsonData.{Json}
use serverless_xmpp.Api.Pending.{rejected-keeps, addressbook_apply_pending_update-keeps}
use serverless_xmpp.Base.{◌==◌, if◌then◌else◌}

module _ (a : ApiPlatform) (call : Call) where
  enabled-keeps :
      (enabled : Bool) (auto_apply : Option Bool) (s : Service)
      → HasGoodBook a call s
      → HasGoodBook a call (enable_addressbook_sync a call enabled auto_apply s).1
  unfolding enable_addressbook_sync finish
  enabled-keeps enabled auto_apply s h = elim (Option-cases s.sync) [
    | inl e ↦ rw (enable_addressbook_sync, e) h
    | inr (state, e) ↦ elim (Bool-cases (enabled && not (truthy state.config.secret))) [
      | inl f ↦ rw (enable_addressbook_sync, e, f) h
      | inr f ↦ rw (enable_addressbook_sync, e, f) h
    ]
  ]

  chat_start-keeps :
      (params : Json) (s : Service)
      → HasGoodBook a call s
      → HasGoodBook a call (chat_start a call params s).1
  unfolding chat_start
  chat_start-keeps params s h =
      let starting =
        λ (contact_id : String). start_chat a.base.unicode call.net call.now contact_id s.manager in
      finish-keeps a call s (chat_started a call s) (required "contact_id" params >>= starting) h
        (λ x e.
          let (contact_id, e', f) = chain-ok (required "contact_id" params) starting e in
          subst (IsConsistent a.base)
            (sym (start_chat-book a.base.unicode call.net call.now contact_id s.manager x.0 x.1 f))
            h)

  chat_send_message-keeps :
      (params : Json) (s : Service)
      → HasGoodBook a call s
      → HasGoodBook a call (chat_send_message a call params s).1
  unfolding chat_send_message
  chat_send_message-keeps params s h =
      finish-keeps a call s
        (λ (x : String × String).
          let (result, m) =
            send_message a.base.unicode call.net call.now call.new_id x.0 x.1 s.manager in
          (message_sent a call result, with_manager s m))
        (chat_and_body a call params) h
        (λ x e.
          subst (IsConsistent a.base)
            (sym (send_message-book a.base.unicode call.net call.now call.new_id x.0 x.1 s.manager))
            h)

  connection_reconnect-keeps :
      (s : Service) → HasGoodBook a call s → HasGoodBook a call (connection_reconnect a call s).1
  unfolding connection_reconnect
  connection_reconnect-keeps s h =
      subst (IsConsistent a.base)
        (sym (reconnect-book a.base s.config call.answers a.keyring call.net s.manager s.links)) h

  presence_set-keeps :
      (params : Json) (s : Service)
      → HasGoodBook a call s
      → HasGoodBook a call (presence_set a call params s).1
  unfolding presence_set
  presence_set-keeps params s h =
      finish-keeps a call s (λ (x : String × String). (ok_answer, s)) _ h (λ x e. h)

  enable_sync-keeps :
      (params : Json) (s : Service)
      → HasGoodBook a call s
      → HasGoodBook a call (addressbook_enable_sync a call params s).1
  unfolding addressbook_enable_sync
  enable_sync-keeps params s h =
      finish-keeps a call s (λ (x : Bool × Option Bool). enable_addressbook_sync a call x.0 x.1 s)
        (asked a call params) h (λ x e. enabled-keeps x.0 x.1 s h)

  sync_now-keeps :
      (params : Json) (s : Service)
      → HasGoodBook a call s
      → HasGoodBook a call (addressbook_sync_now a call params s).1
  unfolding addressbook_sync_now
  sync_now-keeps params s h = finish-keeps a call s (synced a call s) _ h (λ x e. h)

  reject-keeps :
      LowerKeepsJids a.base.unicode a.base.schema
      → (params : Json) (s : Service) → HasGoodBook a call s
      → HasGoodBook a call (addressbook_reject_pending_update a call params s).1
  unfolding addressbook_reject_pending_update
  reject-keeps keeps params s h =
      let rejecting = λ (id : String). ok (reject_pending_sync_update a call id s) in
      finish-keeps a call s (λ (x : Bool × Service). (found_or_not x.0, x.1))
        (required "id" params >>= rejecting) h
        (λ x e.
          let (id, e', f) = chain-ok (required "id" params) rejecting e in
          subst (λ y. HasGoodBook a call y.1) (ok-injective f) (rejected-keeps a call keeps id s h))

  sync_status-keeps :
      (s : Service) → HasGoodBook a call s → HasGoodBook a call (sync_status a call s).1
  unfolding sync_status
  sync_status-keeps s h = elim (Option-cases s.sync) [
    | inl e ↦ rw (sync_status, e) h
    | inr (state, e) ↦ rw (sync_status, e) h
  ]

  -- A method out of two.
  if-keeps :
      (b : Bool) (x y : Outcome × Service)
      → HasGoodBook a call x.1
      → HasGoodBook a call y.1
      → HasGoodBook a call (if b then x else y).1
  if-keeps true x y h k = h
  if-keeps false x y h k = k

  module _ (keeps : LowerKeepsJids a.base.unicode a.base.schema) where
    applied-keeps :
        (s : Service) (x : Applied a.base call.now)
        → HasGoodBook a call s
        → IsConsistent a.base x.1
        → HasGoodBook a call (applied a call s x).1
    applied-keeps s (none, book, l) h k = h
    applied-keeps s (some contact, book, l) h k = k

    discovery_apply-keeps :
        (params : Json) (s : Service)
        → HasGoodBook a call s
        → HasGoodBook a call (discovery_apply a call params s).1
    unfolding discovery_apply
    discovery_apply-keeps params s h =
        let applying = λ (contact_id : String).
          apply_discovered_endpoint a.base call.now contact_id s.manager.book s.links in
        finish-keeps a call s (applied a call s) (required "contact_id" params >>= applying) h
          (λ x e.
            let (contact_id, e', f) = chain-ok (required "contact_id" params) applying e in
            applied-keeps s x h
              (elim (apply_discovered_endpoint-IsKept a.base call.now contact_id s.manager.book
                s.links x f) [
                  | inl same ↦ subst (IsConsistent a.base) (sym same) h
                  | inr (peer, updated, replaced) ↦
                      update-IsConsistent a.base call.now s.manager.book keeps contact_id
                        (discovered_fields peer) updated x.1 h replaced
                ]))

    dispatch_other-keeps :
        (method : String) (params : Json) (s : Service)
        → HasGoodBook a call s
        → HasGoodBook a call (dispatch_other a call method params s).1
    unfolding dispatch_other chat_get_history connection_status_method discovery_list system_health
        system_shutdown unknown_method
    dispatch_other-keeps method params s h =
        if-keeps (method == "chat.start") _ _ (chat_start-keeps params s h) (
          if-keeps (method == "chat.send_message") _ _ (chat_send_message-keeps params s h) (
            if-keeps (method == "chat.get_history") _ _ h (
              if-keeps (method == "presence.set") _ _ (presence_set-keeps params s h) (
                if-keeps (method == "connection.status") _ _ h (
                  if-keeps (method == "connection.reconnect") _ _ (connection_reconnect-keeps s h) (
                    if-keeps (method == "discovery.list") _ _ h (
                      if-keeps (method == "discovery.apply") _ _ (discovery_apply-keeps params s h)
                        (if-keeps (method == "system.health") _ _ h
                          (if-keeps (method == "system.shutdown") _ _ h h)))))))))

    dispatch_sync-keeps :
        (method : String) (params : Json) (s : Service)
        → HasGoodBook a call s
        → HasGoodBook a call (dispatch_sync a call method params s).1
    unfolding dispatch_sync addressbook_get_pending_updates
    dispatch_sync-keeps method params s h =
        if-keeps (method == "addressbook.sync_status") _ _ (sync_status-keeps s h) (
          if-keeps (method == "addressbook.enable_sync") _ _ (enable_sync-keeps params s h) (
            if-keeps (method == "addressbook.sync_now") _ _ (sync_now-keeps params s h) (
              if-keeps (method == "addressbook.get_pending_updates") _ _ h (
                if-keeps (method == "addressbook.apply_pending_update") _ _
                  (addressbook_apply_pending_update-keeps a call keeps params s h)
                  (if-keeps (method == "addressbook.reject_pending_update") _ _
                    (reject-keeps keeps params s h) (dispatch_other-keeps method params s h))))))

    pub dispatch_text-keeps :
        (method : String) (params : Json) (s : Service)
        → HasGoodBook a call s
        → HasGoodBook a call (dispatch_text a call method params s).1
    unfolding dispatch_text addressbook_list addressbook_status
    dispatch_text-keeps method params s h = if-keeps (method == "addressbook.list") _ _ h (
        if-keeps (method == "addressbook.status") _ _ h (
          if-keeps (method == "addressbook.reload") _ _ (addressbook_reload-keeps a call keeps s) (
            if-keeps (method == "addressbook.add") _ _
              (addressbook_add-keeps a call keeps params s h)
              (if-keeps (method == "addressbook.update") _ _
                (addressbook_update-keeps a call keeps params s h)
                (if-keeps (method == "addressbook.remove") _ _
                  (addressbook_remove-keeps a call keeps params s h)
                  (dispatch_sync-keeps method params s h))))))
