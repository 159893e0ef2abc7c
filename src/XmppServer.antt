-- ===== src/XmppServer.antt =====
-- `XMPPServerTransport` of src/xmpp_p2p_chat/connection_service/transports/xmpp_server.py: its
-- state, and the stretches of code that run without a break. What the XMPP library does between
-- them (a connection that is up, down or refused, a ping that fails) comes as events in
-- XmppServer/Events.antt. Seconds are whole numbers: the delays are 1, 2, 4, … and 300.
pub mod Events
pub mod Backoff
pub mod Reconnecting
pub mod Stopping
pub mod StreamState
pub mod Tests
use serverless_xmpp.Base.{
  ℕ, zero, suc, ◌*◌, min, String, Bool, true, false, ◌&&◌, Option, none, some, List, [], ◌∷◌, ◌++◌,
  ltb, leb, if◌then◌else◌, truthy, Unicode, is_some,
}
use serverless_xmpp.Base.Outcome.{Result, ok, err, runtime_error}
use serverless_xmpp.Models.{
  Datetime, ConnectionState, disconnected, connecting, connected, reconnecting, error,
  TransportStatus, StreamManagement, XmppErrorInfo,
}
use serverless_xmpp.SmState.{
  StreamManagementState, SmFile, load_sm_state, save_sm_state, clear_sm_state,
}
use serverless_xmpp.XmppErrors.{XmppException, parse_xmpp_error}

-- The `xep_0198` plugin of a client.
pub record SmPlugin : Type 0 where
  pub sm_id : Option String
  pub handled : ℕ
  pub last_ack : ℕ

-- `_reconnect_task`: none or done, asleep for some seconds, or in its call of `_do_connect`.
pub data ReconnectTask : Type 0 where
  idle : ReconnectTask
  sleeping : ℕ → ReconnectTask
  attempting : ReconnectTask

-- `client` is `_client`, as the plugin that it has, if it has one. `emitted` are the states for
-- which `_emit_state` was called, the latest last.
pub record XmppServer : Type 0 where
  pub jid : String
  pub has_data_dir : Bool
  pub stream_management_enabled : Bool
  pub ping_interval_seconds : ℕ
  pub client : Option (Option SmPlugin)
  pub state : ConnectionState
  pub error : Option String
  pub error_info : Option XmppErrorInfo
  pub reconnect_task : ReconnectTask
  pub ping_running : Bool
  pub should_reconnect : Bool
  pub backoff : ℕ
  pub sm_active : Bool
  pub sm_file : SmFile
  pub emitted : List ConnectionState

abbrev pub emit_state : XmppServer → XmppServer
emit_state t = record t { emitted = t.emitted ++ t.state ∷ [] }

abbrev pub plugin_sm_id : Option (Option SmPlugin) → Option String
plugin_sm_id none = none
plugin_sm_id (some none) = none
plugin_sm_id (some (some plugin)) = plugin.sm_id

-- `bool(x)` of an optional text
abbrev pub present : Option String → Bool
present none = false
present (some s) = truthy s

unfoldable pub current_sm_id : XmppServer → Option String
current_sm_id t = plugin_sm_id t.client

unfoldable pub status : XmppServer → TransportStatus
unfolding current_sm_id
status t = record {
  transport = "xmpp-server";
  state = t.state;
  error = t.error;
  jid = some t.jid;
  error_condition = elim t.error_info [ none ↦ none | some i ↦ i.condition ];
  error_type = elim t.error_info [ none ↦ none | some i ↦ i.error_type ];
  stream_management =
      if t.stream_management_enabled
      then some (record { enabled = t.sm_active; sm_id_present = present (current_sm_id t) })
      else none;
}

abbrev pub saved_plugin : Datetime → Option (Option SmPlugin) → XmppServer → XmppServer
saved_plugin now none t = t
saved_plugin now (some none) t = t
saved_plugin now (some (some plugin)) t =
    if present plugin.sm_id
    then record t {
      sm_file =
          save_sm_state now
            (record {
              jid = t.jid;
              sm_id = plugin.sm_id;
              handled = plugin.handled;
              last_ack = plugin.last_ack;
              saved_at = "";
            })
            t.sm_file;
    }
    else t

unfoldable pub persist_sm_state : Datetime → XmppServer → XmppServer
persist_sm_state now t =
    if t.has_data_dir && t.stream_management_enabled then saved_plugin now t.client t else t

unfoldable pub clear_sm : XmppServer → XmppServer
clear_sm t = if t.has_data_dir then record t { sm_file = clear_sm_state t.sm_file } else t

-- The state that a resumption starts from, if there is one for this JID with an id.
unfoldable pub load_sm_config : Unicode → XmppServer → Option StreamManagementState
load_sm_config u t =
    if t.has_data_dir && t.stream_management_enabled
    then (elim (load_sm_state u t.sm_file t.jid) [
      | none ↦ none
      | some saved ↦ if present saved.sm_id then some saved else none
    ])
    else none

unfoldable pub set_error_from_exception : Unicode → XmppException → XmppServer → XmppServer
set_error_from_exception u exc t =
    let info = parse_xmpp_error u exc in record t { error_info = some info; error = info.text }

-- A task that is not done keeps its place.
unfoldable pub schedule_reconnect : XmppServer → XmppServer
schedule_reconnect t = elim t.reconnect_task [
  | idle ↦ record t {
    reconnect_task = sleeping (min t.backoff 300);
    backoff = min (t.backoff * 2) 300;
    state = reconnecting;
  }
  | sleeping delay ↦ t
  | attempting ↦ t
]

abbrev pub is_connected : ConnectionState → Bool
is_connected connected = true
is_connected _ = false

-- `_do_connect` up to the wait for the connection: the new client has the plugin with what was
-- loaded, if stream management is enabled.
unfoldable pub begin_connect : Unicode → XmppServer → XmppServer
begin_connect u t =
    let started = emit_state (record t { state = connecting; error = none; error_info = none }) in
    record started {
      client = some (
          if t.stream_management_enabled
          then (elim (load_sm_config u t) [
            | none ↦ some (record { sm_id = none; handled = 0; last_ack = 0 })
            | some s ↦ some (record { sm_id = s.sm_id; handled = s.handled; last_ack = s.last_ack })
          ])
          else none);
    }

-- The handler of a failed connection, before it raises again.
unfoldable pub connect_failed : Unicode → XmppException → XmppServer → XmppServer
unfolding set_error_from_exception
connect_failed u exc t =
    let failed =
      emit_state (set_error_from_exception u exc (record t { state = ConnectionState.error })) in
    if failed.should_reconnect then schedule_reconnect failed else failed

unfoldable pub stop_ping_loop : XmppServer → XmppServer
stop_ping_loop t = record t { ping_running = false }

unfoldable pub start_ping_loop : XmppServer → XmppServer
start_ping_loop t = record t { ping_running = ltb 0 t.ping_interval_seconds }

unfoldable pub handle_connected : XmppServer → XmppServer
unfolding start_ping_loop current_sm_id
handle_connected t = emit_state (
    start_ping_loop (record t {
      state = connected;
      error = none;
      error_info = none;
      backoff = 1;
      sm_active = present (current_sm_id t);
    }))

abbrev pub is_disconnected : ConnectionState → Bool
is_disconnected disconnected = true
is_disconnected _ = false

unfoldable pub handle_disconnected : XmppServer → XmppServer
unfolding stop_ping_loop
handle_disconnected t =
    let quiet = stop_ping_loop t in
    if is_disconnected quiet.state
    then quiet
    else let down = emit_state (record quiet { state = disconnected; sm_active = false }) in
      if down.should_reconnect then schedule_reconnect down else down

-- `disconnect()`. Cancelling the task ends it, asleep or in its attempt.
unfoldable pub disconnect : Datetime → XmppServer → XmppServer
unfolding stop_ping_loop persist_sm_state
disconnect now t =
    let stopped =
      persist_sm_state now (record (stop_ping_loop (record t { should_reconnect = false })) {
        reconnect_task = idle;
      }) in
    emit_state (record stopped { client = none; state = disconnected; sm_active = false })

-- `send_message` hands the stanza to the client and returns the message's id.
unfoldable pub send_message : String → XmppServer → Result String
send_message mid t = if is_some t.client && is_connected t.state then ok mid else err runtime_error

-- `ping()` of a client: whether the answer came, or the exception.
unfoldable pub ping_failed : Unicode → XmppException → XmppServer → XmppServer
unfolding set_error_from_exception handle_disconnected
ping_failed u exc t = handle_disconnected (set_error_from_exception u exc t)
