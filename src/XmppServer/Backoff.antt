-- ===== src/XmppServer/Backoff.antt =====
-- The delays of the reconnects of
-- src/xmpp_p2p_chat/connection_service/transports/xmpp_server.py.
use serverless_xmpp.Base.{
  ap, ◌∙◌, zero, ◌*◌, [], suc, ◌∷◌, List, false, min, ℕ, ◌≤◌, true, ◌≡◌, arith, Unicode,
}
use native.Mathlib.Nat.{pow-suc}
use serverless_xmpp.Models.{connecting, reconnecting, Datetime}
use serverless_xmpp.XmppServer.{
  is_disconnected, Datetime, XmppServer, ReconnectTask, idle, sleeping, attempting,
  schedule_reconnect, begin_connect, connect_failed, handle_connected, handle_disconnected,
  disconnect, ping_failed, persist_sm_state, clear_sm, set_error_from_exception,
}
use serverless_xmpp.XmppServer.Events.{
  wake, Event, went_down, timer_fired, attempt_returned, run, connect_called, connect_refused,
  attempt_refused, session_started, sm_enabled, session_resumed, sm_failed, ping_lost,
  disconnect_called, step,
}
use Prim.Native.Nat.{◌^◌}

abbrev pub DelayInRange : ReconnectTask → Type 0
DelayInRange idle = Unit
DelayInRange (sleeping delay) = (1 ≤ delay) × (delay ≤ 300)
DelayInRange attempting = Unit

pub record IsBounded (t : XmppServer) : Type 0 where
  pub at_least : 1 ≤ t.backoff
  pub at_most : t.backoff ≤ 300
  pub delay : DelayInRange t.reconnect_task

-- The part of the state that the delays depend on is kept.
persist-task :
    (now : Datetime) (t : XmppServer)
    → ((persist_sm_state now t).reconnect_task ≡ t.reconnect_task)
      × ((persist_sm_state now t).backoff ≡ t.backoff)
unfolding persist_sm_state
persist-task now t = ground arith

step-IsBounded : (u : Unicode) (e : Event) (t : XmppServer) → IsBounded t → IsBounded (step u e t)
unfolding step schedule_reconnect begin_connect connect_failed handle_connected handle_disconnected
    disconnect ping_failed clear_sm set_error_from_exception
step-IsBounded u connect_called t h = ground arith
step-IsBounded u (connect_refused exc) t h = ground arith
step-IsBounded u timer_fired t h = ground arith
step-IsBounded u (attempt_refused exc) t h = ground arith
step-IsBounded u attempt_returned t h = ground arith
step-IsBounded u session_started t h = ground arith
step-IsBounded u (went_down now) t h = ground (arith, persist-task now t)
step-IsBounded u (sm_enabled now) t h =
    ground (arith, persist-task now (record t { sm_active = true }))
step-IsBounded u (session_resumed now) t h = ground (arith, persist-task now t)
step-IsBounded u sm_failed t h = ground arith
step-IsBounded u (ping_lost exc) t h = ground arith
step-IsBounded u (disconnect_called now) t h = ground arith

-- Whatever happens, the backoff is between one second and five minutes, and so is a delay that is
-- being waited for.
pub run-IsBounded :
    (u : Unicode) (es : List Event) (t : XmppServer) → IsBounded t → IsBounded (run u es t)
unfolding run
run-IsBounded u [] t h = h
run-IsBounded u (e ∷ es) t h = run-IsBounded u es (step u e t) (step-IsBounded u e t h)

-- One outage: the connection goes down, the task sleeps, tries, and its `_do_connect` returns with
-- no session.
abbrev pub outage : Unicode → Datetime → XmppServer → XmppServer
outage u now t = run u (went_down now ∷ timer_fired ∷ attempt_returned ∷ []) t

pub outages : Unicode → Datetime → ℕ → XmppServer → XmppServer
outages u now zero t = t
outages u now (suc n) t = outage u now (outages u now n t)

-- Where a reconnect is due as soon as the connection goes down.
pub record IsWaiting (t : XmppServer) : Type 0 where
  pub task : t.reconnect_task ≡ idle
  pub wanted : t.should_reconnect ≡ true
  pub not_down : is_disconnected t.state ≡ false

persist-rest :
    (now : Datetime) (t : XmppServer)
    → ((persist_sm_state now t).state ≡ t.state)
      × ((persist_sm_state now t).should_reconnect ≡ t.should_reconnect)
unfolding persist_sm_state
persist-rest now t = ground arith

-- What a loss of the connection leads to, and how the task goes on from there.
record IsAsleep (b : ℕ) (t : XmppServer) : Type 0 where
  task : t.reconnect_task ≡ sleeping (min b 300)
  backoff : t.backoff ≡ min (b * 2) 300
  wanted : t.should_reconnect ≡ true
  state : t.state ≡ reconnecting

down-IsAsleep :
    (u : Unicode) (now : Datetime) (t : XmppServer)
    → IsWaiting t
    → IsAsleep t.backoff (step u (went_down now) t)
unfolding step handle_disconnected schedule_reconnect
down-IsAsleep u now t h = ground (arith, persist-task now t, persist-rest now t)

record IsTrying (b : ℕ) (t : XmppServer) : Type 0 where
  task : t.reconnect_task ≡ attempting
  backoff : t.backoff ≡ min (b * 2) 300
  wanted : t.should_reconnect ≡ true
  state : t.state ≡ connecting

asleep-IsTrying :
    (u : Unicode) (b : ℕ) (t : XmppServer) → IsAsleep b t → IsTrying b (step u timer_fired t)
unfolding step wake begin_connect
asleep-IsTrying u b t h = ground arith

trying-IsWaiting :
    (u : Unicode) (b : ℕ) (t : XmppServer)
    → IsTrying b t
    → IsWaiting (step u attempt_returned t)
      × ((step u attempt_returned t).backoff ≡ min (b * 2) 300)
unfolding step
trying-IsWaiting u b t h = ground arith

outage-IsWaiting :
    (u : Unicode) (now : Datetime) (t : XmppServer)
    → IsWaiting t
    → IsWaiting (outage u now t) × ((outage u now t).backoff ≡ min (t.backoff * 2) 300)
unfolding run
outage-IsWaiting u now t h =
    trying-IsWaiting u t.backoff _ (asleep-IsTrying u t.backoff _ (down-IsAsleep u now t h))

outages-IsWaiting :
    (u : Unicode) (now : Datetime) (n : ℕ) (t : XmppServer)
    → IsWaiting t
    → t.backoff ≡ 1
    → IsWaiting (outages u now n t) × ((outages u now n t).backoff ≡ min (2 ^ n) 300)
unfolding outages
outages-IsWaiting u now zero t h e = (h, e)
outages-IsWaiting u now (suc n) t h e =
    let (w, b) = outages-IsWaiting u now n t h e in
    let (w', b') = outage-IsWaiting u now (outages u now n t) w in
    (w', rw pow-suc (omega (arith, b, b')))

-- Counted from a session, the delay after the outage number `n` is exactly `2 ^ n` seconds, or five
-- minutes if that is less: there is no jitter.
pub delay_after_outages :
    (u : Unicode) (now : Datetime) (n : ℕ) (t : XmppServer)
    → IsWaiting t
    → t.backoff ≡ 1
    → (step u (went_down now) (outages u now n t)).reconnect_task ≡ sleeping (min (2 ^ n) 300)
delay_after_outages u now n t h e =
    let (w, b) = outages-IsWaiting u now n t h e in
    (down-IsAsleep u now (outages u now n t) w).task ∙ ap sleeping (omega (arith, b))
