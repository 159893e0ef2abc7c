-- ===== src/XmppServer/Events.antt =====
-- The life of a transport of src/xmpp_p2p_chat/connection_service/transports/xmpp_server.py as a
-- sequence of events: the calls of its methods, the callbacks of the XMPP library, and the progress
-- of the reconnect task. An event that cannot happen in a state changes nothing.
use serverless_xmpp.Base.{true, List, [], ◌∷◌, if◌then◌else◌}
use serverless_xmpp.Base.{Unicode}
use serverless_xmpp.Models.{Datetime}
use serverless_xmpp.XmppErrors.{XmppException}
use serverless_xmpp.XmppServer.{
  XmppServer, idle, sleeping, attempting, is_connected, begin_connect, connect_failed,
  handle_connected, handle_disconnected, disconnect, ping_failed, persist_sm_state, clear_sm,
}

pub data Event : Type 0 where
  -- `connect()` is called; its wait for the connection fails
  connect_called : Event
  connect_refused : XmppException → Event
  -- the sleep of the reconnect task ends; its `_do_connect` fails, or returns
  timer_fired : Event
  attempt_refused : XmppException → Event
  attempt_returned : Event
  -- `_on_session_start`, `_on_disconnected`, `_on_sm_enabled`, `_on_session_resumed`, `_on_sm_failed`
  session_started : Event
  went_down : Datetime → Event
  sm_enabled : Datetime → Event
  session_resumed : Datetime → Event
  sm_failed : Event
  -- the ping loop meets a ping that fails
  ping_lost : XmppException → Event
  -- `disconnect()` is called
  disconnect_called : Datetime → Event

-- `_do_connect` does nothing if the transport is connected.
unfoldable pub do_connect : Unicode → XmppServer → XmppServer
do_connect u t = if is_connected t.state then t else begin_connect u t

abbrev pub end_task : XmppServer → XmppServer
end_task t = record t { reconnect_task = idle }

-- `_reconnect` after its sleep. Where no connection is begun the task ends.
unfoldable pub wake : Unicode → XmppServer → XmppServer
unfolding do_connect
wake u t =
    if t.should_reconnect
    then if is_connected t.state
      then end_task t
      else begin_connect u (record t { reconnect_task = attempting })
    else end_task t

unfoldable pub step : Unicode → Event → XmppServer → XmppServer
unfolding do_connect wake
step u connect_called t = do_connect u (record t { should_reconnect = true })
step u (connect_refused exc) t = connect_failed u exc t
step u timer_fired t = elim t.reconnect_task [
  | idle ↦ t
  | sleeping delay ↦ wake u t
  | attempting ↦ t
]
step u (attempt_refused exc) t = elim t.reconnect_task [
  | idle ↦ t
  | sleeping delay ↦ t
  | attempting ↦ end_task (connect_failed u exc t)
]
step u attempt_returned t = elim t.reconnect_task [
  | idle ↦ t
  | sleeping delay ↦ t
  | attempting ↦ end_task t
]
step u session_started t = handle_connected t
step u (went_down now) t = handle_disconnected (persist_sm_state now t)
step u (sm_enabled now) t = persist_sm_state now (record t { sm_active = true })
step u (session_resumed now) t = persist_sm_state now t
step u sm_failed t = clear_sm t
step u (ping_lost exc) t = if t.ping_running then ping_failed u exc t else t
step u (disconnect_called now) t = disconnect now t

unfoldable pub run : Unicode → List Event → XmppServer → XmppServer
run u [] t = t
run u (e ∷ es) t = run u es (step u e t)
