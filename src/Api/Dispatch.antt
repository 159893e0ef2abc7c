-- ===== src/Api/Dispatch.antt =====
-- `_dispatch` of src/xmpp_p2p_chat/connection_service/api.py: the methods by their names.
use serverless_xmpp.Base.{String, ◌⧺◌, ◌==◌, if◌then◌else◌}
use serverless_xmpp.Models.JsonData.{Json, null, bool, int, number, str, arr, obj}
use serverless_xmpp.Api.{Outcome, rpc_error}
use serverless_xmpp.Api.Service.{ApiPlatform, Call, Service}
use serverless_xmpp.Api.BookMethods.{
  addressbook_list, addressbook_status, addressbook_reload, addressbook_add, addressbook_update,
  addressbook_remove,
}
use serverless_xmpp.Api.SyncMethods.{
  sync_status, addressbook_enable_sync, addressbook_sync_now, addressbook_get_pending_updates,
  addressbook_apply_pending_update, addressbook_reject_pending_update,
}
use serverless_xmpp.Api.ChatMethods.{
  chat_start, chat_send_message, chat_get_history, presence_set, connection_status_method,
  connection_reconnect, discovery_list, discovery_apply, system_health, system_shutdown,
}

module _ (a : ApiPlatform) (call : Call) where
  unfoldable pub unknown_method : String → Service → Outcome × Service
  unknown_method method s = (rpc_error "-32601" ("Method not found: " ⧺ method), s)

  -- The methods after those of the address book.
  unfoldable pub dispatch_other : String → Json → Service → Outcome × Service
  unfolding unknown_method
  dispatch_other method params s =
      if method == "chat.start"
      then chat_start a call params s
      else if method == "chat.send_message"
      then chat_send_message a call params s
      else if method == "chat.get_history"
      then chat_get_history a call params s
      else if method == "presence.set"
      then presence_set a call params s
      else if method == "connection.status"
      then connection_status_method a call s
      else if method == "connection.reconnect"
      then connection_reconnect a call s
      else if method == "discovery.list"
      then discovery_list a call s
      else if method == "discovery.apply"
      then discovery_apply a call params s
      else if method == "system.health"
      then system_health a call s
      else if method == "system.shutdown"
      then system_shutdown a call s
      else unknown_method method s

  unfoldable pub dispatch_sync : String → Json → Service → Outcome × Service
  unfolding dispatch_other
  dispatch_sync method params s =
      if method == "addressbook.sync_status"
      then sync_status a call s
      else if method == "addressbook.enable_sync"
      then addressbook_enable_sync a call params s
      else if method == "addressbook.sync_now"
      then addressbook_sync_now a call params s
      else if method == "addressbook.get_pending_updates"
      then addressbook_get_pending_updates a call s
      else if method == "addressbook.apply_pending_update"
      then addressbook_apply_pending_update a call params s
      else if method == "addressbook.reject_pending_update"
      then addressbook_reject_pending_update a call params s
      else dispatch_other method params s

  unfoldable pub dispatch_text : String → Json → Service → Outcome × Service
  unfolding dispatch_sync
  dispatch_text method params s =
      if method == "addressbook.list"
      then addressbook_list a call s
      else if method == "addressbook.status"
      then addressbook_status a call s
      else if method == "addressbook.reload"
      then addressbook_reload a call s
      else if method == "addressbook.add"
      then addressbook_add a call params s
      else if method == "addressbook.update"
      then addressbook_update a call params s
      else if method == "addressbook.remove"
      then addressbook_remove a call params s
      else dispatch_sync method params s

  -- `text_of` is what an f-string makes of a value.
  unfoldable pub dispatch : Json → Json → Service → Outcome × Service
  unfolding dispatch_text unknown_method
  dispatch (str method) params s = dispatch_text method params s
  dispatch null params s = unknown_method "None" s
  dispatch (bool b) params s = unknown_method (a.sync.text_of (bool b)) s
  dispatch (int n) params s = unknown_method (a.sync.text_of (int n)) s
  dispatch (number t) params s = unknown_method (a.sync.text_of (number t)) s
  dispatch (arr items) params s = unknown_method (a.sync.text_of (arr items)) s
  dispatch (obj d) params s = unknown_method (a.sync.text_of (obj d)) s
