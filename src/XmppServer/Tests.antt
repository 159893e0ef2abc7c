-- ===== src/XmppServer/Tests.antt =====
-- Transports in some of their states, and instances of the theorems on them.
use Prim.Native.Nat.{◌^◌}
use serverless_xmpp.Base.{true, false, none, some, [], ◌∷◌, ◌≡◌, refl, arith, min}
use serverless_xmpp.Base.Outcome.{err, runtime_error}
use serverless_xmpp.Models.{connected, connecting}
use serverless_xmpp.Samples.{ascii}
use serverless_xmpp.SmState.{missing}
use serverless_xmpp.XmppErrors.{XmppException, other}
use serverless_xmpp.XmppServer.Events.{
  step, run, went_down, attempt_refused, timer_fired, ping_lost,
}
use serverless_xmpp.XmppServer.Backoff.{IsBounded, outages, run-IsBounded, delay_after_outages}
use serverless_xmpp.XmppServer.Reconnecting.{HasGivenUp, refused_attempt_gives_up}
use serverless_xmpp.XmppServer.Stopping.{IsStopped, disconnect_is_final}
use serverless_xmpp.XmppServer.StreamState.{begin_connect-persist_sm_state}
use serverless_xmpp.XmppServer.{
  XmppServer, SmPlugin, idle, sleeping, attempting, begin_connect, persist_sm_state, disconnect,
  send_message,
}

abbrev plugin : SmPlugin
plugin = record { sm_id = some "stream"; handled = 7; last_ack = 3 }

abbrev online : XmppServer
online = record {
  jid = "me@example.org";
  has_data_dir = true;
  stream_management_enabled = true;
  ping_interval_seconds = 60;
  client = some (some plugin);
  state = connected;
  error = none;
  error_info = none;
  reconnect_task = idle;
  ping_running = true;
  should_reconnect = true;
  backoff = 1;
  sm_active = true;
  sm_file = missing;
  emitted = [];
}

abbrev trying : XmppServer
trying = record online { state = connecting; reconnect_task = attempting; ping_running = false }

abbrev starting : XmppServer
starting = record online { state = connecting; ping_running = false }

abbrev refused : XmppException
refused = other "refused"

run-IsBounded_example : IsBounded (run ascii (went_down "t1" ∷ timer_fired ∷ []) online)
run-IsBounded_example =
    run-IsBounded ascii (went_down "t1" ∷ timer_fired ∷ []) online
      (record { at_least = omega arith; at_most = omega arith; delay = tt })

delay_after_outages_example :
    (step ascii (went_down "t1") (outages ascii "t1" 3 online)).reconnect_task
    ≡ sleeping (min (2 ^ 3) 300)
delay_after_outages_example =
    delay_after_outages ascii "t1" 3 online (record { task = refl; wanted = refl; not_down = refl })
      refl

refused_attempt_gives_up_example :
    HasGivenUp (run ascii (timer_fired ∷ []) (step ascii (attempt_refused refused) trying))
refused_attempt_gives_up_example =
    refused_attempt_gives_up ascii refused (timer_fired ∷ []) trying refl (tt, tt)

disconnect_is_final_example :
    IsStopped (run ascii (timer_fired ∷ ping_lost refused ∷ []) (disconnect "t1" online))
    × (send_message "m1" (run ascii (timer_fired ∷ ping_lost refused ∷ []) (disconnect "t1" online))
        ≡ err runtime_error)
disconnect_is_final_example =
    disconnect_is_final ascii "t1" online (timer_fired ∷ ping_lost refused ∷ []) "m1"
      ((λ e. absurd (cc e)), ((λ e. absurd (cc e)), tt))

begin_connect-persist_sm_state_example :
    (begin_connect ascii (persist_sm_state "t1" online)).client ≡ some (some plugin)
begin_connect-persist_sm_state_example =
    begin_connect-persist_sm_state ascii online "t1" plugin refl refl refl refl
