-- ===== src/Api/Safety.antt =====
-- What holds of the service after any calls of the methods of
-- src/xmpp_p2p_chat/connection_service/api.py, in any order and by any clients.
use serverless_xmpp.Base.{
  All, ◌∙◌, ◌⧺◌, String, Bool, false, ◌≡◌, refl, sym, Option, List, [], ◌∷◌, ◌==◌,
}
use mathlib.Core.Path.{subst}
use serverless_xmpp.Models.{Datetime}
use serverless_xmpp.Models.Schema.{LowerKeepsJids}
use serverless_xmpp.Models.JsonData.{Json, null, bool, int, number, str, arr, obj}
use serverless_xmpp.AddressBook.Files.{File}
use serverless_xmpp.AddressBook.{AddressBook}
use serverless_xmpp.AddressBook.Loading.{process_startup}
use serverless_xmpp.AddressBook.Loaded.{process_startup-IsConsistent}
use serverless_xmpp.AddressBook.Mutations.{IsConsistent}
use serverless_xmpp.Api.{rpc_error}
use serverless_xmpp.Api.Service.{ApiPlatform, Call, Service}
use serverless_xmpp.Api.Consistency.{HasGoodBook}
use serverless_xmpp.Api.Calls.{dispatch_text-keeps}
use serverless_xmpp.Api.Dispatch.{
  dispatch, dispatch_text, dispatch_sync, dispatch_other, unknown_method,
}

module _ (a : ApiPlatform) where
  -- Calls, each with its method and its parameters.
  unfoldable pub run_calls : List (Call × Json × Json) → Service → Service
  run_calls [] s = s
  run_calls ((call, method, params) ∷ calls) s = run_calls calls (dispatch a call method params s).1

  dispatch-keeps :
      (call : Call) (keeps : LowerKeepsJids a.base.unicode a.base.schema) (method params : Json)
      (s : Service)
      → HasGoodBook a call s
      → HasGoodBook a call (dispatch a call method params s).1
  unfolding dispatch unknown_method
  dispatch-keeps call keeps (str method) params s h =
      dispatch_text-keeps a call keeps method params s h
  dispatch-keeps call keeps null params s h = h
  dispatch-keeps call keeps (bool b) params s h = h
  dispatch-keeps call keeps (int n) params s h = h
  dispatch-keeps call keeps (number t) params s h = h
  dispatch-keeps call keeps (arr items) params s h = h
  dispatch-keeps call keeps (obj d) params s h = h

  run_calls-keeps :
      (keeps : LowerKeepsJids a.base.unicode a.base.schema) (calls : List (Call × Json × Json))
      (s : Service)
      → IsConsistent a.base s.manager.book
      → IsConsistent a.base (run_calls calls s).manager.book
  unfolding run_calls
  run_calls-keeps keeps [] s h = h
  run_calls-keeps keeps ((call, method, params) ∷ calls) s h =
      run_calls-keeps keeps calls (dispatch a call method params s).1
        (dispatch-keeps call keeps method params s h)

  -- Started on any files, and after any sequence of calls of any methods with any parameters, whatever
  -- the transports answer, the address book has unique ids and only valid contacts.
  pub run_calls-IsConsistent :
      (keeps : LowerKeepsJids a.base.unicode a.base.schema) (bundled : Option (String × File))
      (import_if_empty : Bool) (mtime now : Datetime) (book : AddressBook) (s : Service)
      (calls : List (Call × Json × Json))
      → s.manager.book ≡ process_startup a.base bundled import_if_empty mtime now book
      → IsConsistent a.base (run_calls calls s).manager.book
  run_calls-IsConsistent keeps bundled import_if_empty mtime now book s calls started =
      run_calls-keeps keeps calls s (
        subst (IsConsistent a.base) (sym started)
          (process_startup-IsConsistent a.base keeps bundled import_if_empty mtime now book))

abbrev pub methods : List String
methods =
    "addressbook.list" ∷ "addressbook.status" ∷ "addressbook.reload" ∷ "addressbook.add"
    ∷ "addressbook.update" ∷ "addressbook.remove" ∷ "addressbook.sync_status"
    ∷ "addressbook.enable_sync" ∷ "addressbook.sync_now" ∷ "addressbook.get_pending_updates"
    ∷ "addressbook.apply_pending_update" ∷ "addressbook.reject_pending_update" ∷ "chat.start"
    ∷ "chat.send_message" ∷ "chat.get_history" ∷ "presence.set" ∷ "connection.status"
    ∷ "connection.reconnect" ∷ "discovery.list" ∷ "discovery.apply" ∷ "system.health"
    ∷ "system.shutdown" ∷ []

module _ (a : ApiPlatform) (call : Call) (method : String) (params : Json) (s : Service)
    (h : All (λ name. (method == name) ≡ false) methods) where
  other_unknown : dispatch_other a call method params s ≡ unknown_method a call method s
  unfolding dispatch_other
  other_unknown =
      rw
        (
          dispatch_other, h.1.1.1.1.1.1.1.1.1.1.1.1.0, h.1.1.1.1.1.1.1.1.1.1.1.1.1.0,
          h.1.1.1.1.1.1.1.1.1.1.1.1.1.1.0, h.1.1.1.1.1.1.1.1.1.1.1.1.1.1.1.0,
          h.1.1.1.1.1.1.1.1.1.1.1.1.1.1.1.1.0, h.1.1.1.1.1.1.1.1.1.1.1.1.1.1.1.1.1.0,
          h.1.1.1.1.1.1.1.1.1.1.1.1.1.1.1.1.1.1.0, h.1.1.1.1.1.1.1.1.1.1.1.1.1.1.1.1.1.1.1.0,
          h.1.1.1.1.1.1.1.1.1.1.1.1.1.1.1.1.1.1.1.1.0,
          h.1.1.1.1.1.1.1.1.1.1.1.1.1.1.1.1.1.1.1.1.1.0,
        )
        refl

  sync_unknown : dispatch_sync a call method params s ≡ dispatch_other a call method params s
  unfolding dispatch_sync
  sync_unknown =
      rw
        (
          dispatch_sync, h.1.1.1.1.1.1.0, h.1.1.1.1.1.1.1.0, h.1.1.1.1.1.1.1.1.0,
          h.1.1.1.1.1.1.1.1.1.0, h.1.1.1.1.1.1.1.1.1.1.0, h.1.1.1.1.1.1.1.1.1.1.1.0,
        )
        refl

  text_unknown : dispatch_text a call method params s ≡ dispatch_sync a call method params s
  unfolding dispatch_text
  text_unknown = rw (dispatch_text, h.0, h.1.0, h.1.1.0, h.1.1.1.0, h.1.1.1.1.0, h.1.1.1.1.1.0) refl

  -- A method of another name than those is refused as not found, and nothing changes.
  pub dispatch_unknown :
      dispatch a call (str method) params s
      ≡ (rpc_error "-32601" ("Method not found: " ⧺ method), s)
  unfolding dispatch unknown_method
  dispatch_unknown = text_unknown ∙ sync_unknown ∙ other_unknown
