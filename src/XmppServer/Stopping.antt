-- ===== src/XmppServer/Stopping.antt =====
-- After `disconnect()` of src/xmpp_p2p_chat/connection_service/transports/xmpp_server.py.
use serverless_xmpp.Base.{String, true, false, ◌≡◌, ◌≢◌, refl, arith, List, [], ◌∷◌, Unicode, none}
use serverless_xmpp.Models.{Datetime}
use serverless_xmpp.XmppServer.{
  runtime_error, err, send_message, XmppServer, idle, schedule_reconnect, connect_failed,
  handle_connected, handle_disconnected, disconnect, ping_failed, persist_sm_state, clear_sm,
}
use serverless_xmpp.XmppServer.Events.{
  run, Event, connect_called, connect_refused, timer_fired, attempt_refused, attempt_returned,
  session_started, went_down, sm_enabled, session_resumed, sm_failed, ping_lost, disconnect_called,
  step,
}

-- Nothing is to be connected, no reconnect is due, and there is no client.
pub record IsStopped (t : XmppServer) : Type 0 where
  pub unwanted : t.should_reconnect ≡ false
  pub task : t.reconnect_task ≡ idle
  pub no_client : t.client ≡ none

abbrev pub NoConnect : List Event → Type 0
NoConnect [] = Unit
NoConnect (e ∷ es) = (e ≢ connect_called) × NoConnect es

persist-kept :
    (now : Datetime) (t : XmppServer)
    → ((persist_sm_state now t).reconnect_task ≡ t.reconnect_task)
      × ((persist_sm_state now t).should_reconnect ≡ t.should_reconnect)
      × ((persist_sm_state now t).client ≡ t.client)
unfolding persist_sm_state
persist-kept now t = ground arith

disconnect-IsStopped : (now : Datetime) (t : XmppServer) → IsStopped (disconnect now t)
unfolding disconnect
disconnect-IsStopped now t = ground arith

step-IsStopped :
    (u : Unicode) (e : Event) (t : XmppServer)
    → e ≢ connect_called
    → IsStopped t
    → IsStopped (step u e t)
unfolding step clear_sm connect_failed schedule_reconnect handle_connected handle_disconnected
    ping_failed
step-IsStopped u connect_called t n h = absurd (n refl)
step-IsStopped u (connect_refused exc) t n h = ground arith
step-IsStopped u timer_fired t n h = ground arith
step-IsStopped u (attempt_refused exc) t n h = ground arith
step-IsStopped u attempt_returned t n h = ground arith
step-IsStopped u session_started t n h = ground arith
step-IsStopped u (went_down now) t n h = ground (arith, persist-kept now t)
step-IsStopped u (sm_enabled now) t n h =
    ground (arith, persist-kept now (record t { sm_active = true }))
step-IsStopped u (session_resumed now) t n h = ground (arith, persist-kept now t)
step-IsStopped u sm_failed t n h = ground arith
step-IsStopped u (ping_lost exc) t n h = ground arith
step-IsStopped u (disconnect_called now) t n h = disconnect-IsStopped now t

run-IsStopped :
    (u : Unicode) (es : List Event) (t : XmppServer)
    → NoConnect es
    → IsStopped t
    → IsStopped (run u es t)
unfolding run
run-IsStopped u [] t n h = h
run-IsStopped u (e ∷ es) t n h = run-IsStopped u es (step u e t) n.1 (step-IsStopped u e t n.0 h)

send_message-IsStopped :
    (mid : String) (t : XmppServer) → IsStopped t → send_message mid t ≡ err runtime_error
unfolding send_message
send_message-IsStopped mid t h = rw h.no_client refl

-- After `disconnect()`, whatever events follow, `connect()` not among them, no reconnect is due and
-- there is no client; a message that is sent is refused.
pub disconnect_is_final :
    (u : Unicode) (now : Datetime) (t : XmppServer) (es : List Event) (mid : String)
    → NoConnect es
    → IsStopped (run u es (disconnect now t))
      × (send_message mid (run u es (disconnect now t)) ≡ err runtime_error)
disconnect_is_final u now t es mid n =
    let stopped = run-IsStopped u es (disconnect now t) n (disconnect-IsStopped now t) in
    (stopped, send_message-IsStopped mid (run u es (disconnect now t)) stopped)
