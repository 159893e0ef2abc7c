-- ===== src/XmppServer/Reconnecting.antt =====
-- What is left of a failed reconnect of
-- src/xmpp_p2p_chat/connection_service/transports/xmpp_server.py.
use serverless_xmpp.Base.{min, true, ◌≡◌, arith, List, [], ◌∷◌, Unicode}
use serverless_xmpp.Models.{Datetime, ConnectionState, reconnecting}
use serverless_xmpp.XmppErrors.{XmppException}
use serverless_xmpp.XmppServer.{
  XmppServer, idle, sleeping, attempting, schedule_reconnect, connect_failed, persist_sm_state,
  clear_sm,
}
use serverless_xmpp.XmppServer.Events.{
  Event, connect_called, connect_refused, timer_fired, attempt_refused, attempt_returned,
  session_started, went_down, sm_enabled, session_resumed, sm_failed, ping_lost, disconnect_called,
  step, run,
}

-- A first connection that is refused is tried again, after the delay that was due.
pub refused_connect_is_retried :
    (u : Unicode) (exc : XmppException) (t : XmppServer)
    → t.should_reconnect ≡ true
    → t.reconnect_task ≡ idle
    → ((step u (connect_refused exc) t).reconnect_task ≡ sleeping (min t.backoff 300))
      × ((step u (connect_refused exc) t).state ≡ reconnecting)
unfolding step connect_failed schedule_reconnect
refused_connect_is_retried u exc t w i = ground arith

-- No reconnect is due and the transport stands in the error state.
pub record HasGivenUp (t : XmppServer) : Type 0 where
  pub task : t.reconnect_task ≡ idle
  pub state : t.state ≡ ConnectionState.error

-- The events that the transport itself can still bring about: the reconnect task and the
-- negotiation of stream management.
abbrev pub IsOwn : Event → Type 0
IsOwn timer_fired = Unit
IsOwn (attempt_refused exc) = Unit
IsOwn attempt_returned = Unit
IsOwn (sm_enabled now) = Unit
IsOwn (session_resumed now) = Unit
IsOwn sm_failed = Unit
IsOwn _ = ⊥

abbrev pub AllOwn : List Event → Type 0
AllOwn [] = Unit
AllOwn (e ∷ es) = IsOwn e × AllOwn es

persist-kept :
    (now : Datetime) (t : XmppServer)
    → ((persist_sm_state now t).reconnect_task ≡ t.reconnect_task)
      × ((persist_sm_state now t).state ≡ t.state)
unfolding persist_sm_state
persist-kept now t = ground arith

attempt_refused-HasGivenUp :
    (u : Unicode) (exc : XmppException) (t : XmppServer)
    → t.reconnect_task ≡ attempting
    → HasGivenUp (step u (attempt_refused exc) t)
unfolding step connect_failed schedule_reconnect
attempt_refused-HasGivenUp u exc t h = ground arith

own-HasGivenUp :
    (u : Unicode) (e : Event) (t : XmppServer) → IsOwn e → HasGivenUp t → HasGivenUp (step u e t)
unfolding step clear_sm
own-HasGivenUp u timer_fired t o h = ground arith
own-HasGivenUp u (attempt_refused exc) t o h = ground arith
own-HasGivenUp u attempt_returned t o h = ground arith
own-HasGivenUp u (sm_enabled now) t o h =
    ground (arith, persist-kept now (record t { sm_active = true }))
own-HasGivenUp u (session_resumed now) t o h = ground (arith, persist-kept now t)
own-HasGivenUp u sm_failed t o h = ground arith
own-HasGivenUp u connect_called t o h = absurd o
own-HasGivenUp u (connect_refused exc) t o h = absurd o
own-HasGivenUp u session_started t o h = absurd o
own-HasGivenUp u (went_down now) t o h = absurd o
own-HasGivenUp u (ping_lost exc) t o h = absurd o
own-HasGivenUp u (disconnect_called now) t o h = absurd o

run-HasGivenUp :
    (u : Unicode) (es : List Event) (t : XmppServer)
    → AllOwn es
    → HasGivenUp t
    → HasGivenUp (run u es t)
unfolding run
run-HasGivenUp u [] t o h = h
run-HasGivenUp u (e ∷ es) t o h = run-HasGivenUp u es (step u e t) o.1 (own-HasGivenUp u e t o.0 h)

-- When the attempt of the reconnect task is refused, the transport gives up, though it should
-- reconnect: the task is still running when the next one would be scheduled, so none is, and no
-- later event of its own makes it try again.
pub refused_attempt_gives_up :
    (u : Unicode) (exc : XmppException) (es : List Event) (t : XmppServer)
    → t.reconnect_task ≡ attempting
    → AllOwn es
    → HasGivenUp (run u es (step u (attempt_refused exc) t))
refused_attempt_gives_up u exc es t h o =
    run-HasGivenUp u es (step u (attempt_refused exc) t) o (attempt_refused-HasGivenUp u exc t h)
