-- ===== src/XmppServer/StreamState.antt =====
-- Stream management across connections, of
-- src/xmpp_p2p_chat/connection_service/transports/xmpp_server.py.
use serverless_xmpp.Base.{◌∙◌, ap, true, ◌≡◌, refl, arith, Unicode, none, some, eq_iff}
use serverless_xmpp.Models.{Datetime}
use serverless_xmpp.SmState.{
  StreamManagementState, saved, StreamManagementState, saved, load_sm_state, save_sm_state,
  clear_sm_state,
}
use serverless_xmpp.XmppServer.{
  XmppServer, SmPlugin, persist_sm_state, load_sm_config, clear_sm, begin_connect, present,
}

load-saved :
    (u : Unicode) (t : XmppServer) (state : StreamManagementState)
    → t.has_data_dir ≡ true
    → t.stream_management_enabled ≡ true
    → t.sm_file ≡ saved state
    → state.jid ≡ t.jid
    → present state.sm_id ≡ true
    → load_sm_config u t ≡ some state
unfolding load_sm_config load_sm_state
load-saved u t state d e f j i = ground (arith, eq_iff (u.lower t.jid) (u.lower t.jid))

begin_connect-loaded :
    (u : Unicode) (t : XmppServer) (state : StreamManagementState)
    → t.stream_management_enabled ≡ true
    → load_sm_config u t ≡ some state
    → (begin_connect u t).client
      ≡ some (
          some (record { sm_id = state.sm_id; handled = state.handled; last_ack = state.last_ack }))
unfolding begin_connect
begin_connect-loaded u t state e l = rw (l, e) refl

module _ (u : Unicode) (t : XmppServer) where
  persist-saved :
      (now : Datetime) (plugin : SmPlugin)
      → t.has_data_dir ≡ true
      → t.stream_management_enabled ≡ true
      → t.client ≡ some (some plugin)
      → present plugin.sm_id ≡ true
      → persist_sm_state now t ≡ record t {
        sm_file = saved (record {
          jid = t.jid;
          sm_id = plugin.sm_id;
          handled = plugin.handled;
          last_ack = plugin.last_ack;
          saved_at = now;
        });
      }
  unfolding persist_sm_state save_sm_state
  persist-saved now plugin d e c i = rw (d, e, c, i) refl

  -- A connection that is begun after the state was written resumes the stream: the new client has
  -- the id and both counters that the old one had.
  pub begin_connect-persist_sm_state :
      (now : Datetime) (plugin : SmPlugin)
      → t.has_data_dir ≡ true
      → t.stream_management_enabled ≡ true
      → t.client ≡ some (some plugin)
      → present plugin.sm_id ≡ true
      → (begin_connect u (persist_sm_state now t)).client ≡ some (some plugin)
  begin_connect-persist_sm_state now plugin d e c i =
      let kept : StreamManagementState = record {
        jid = t.jid;
        sm_id = plugin.sm_id;
        handled = plugin.handled;
        last_ack = plugin.last_ack;
        saved_at = now;
      } in
      let after : XmppServer = record t { sm_file = saved kept } in
      ap (λ x. (begin_connect u x).client) (persist-saved now plugin d e c i)
      ∙ begin_connect-loaded u after kept e (load-saved u after kept d e refl refl i)

  -- After a resumption that failed, the next client starts a stream anew.
  pub begin_connect-clear_sm :
      t.has_data_dir ≡ true
      → t.stream_management_enabled ≡ true
      → (begin_connect u (clear_sm t)).client
        ≡ some (some (record { sm_id = none; handled = 0; last_ack = 0 }))
  unfolding begin_connect clear_sm load_sm_config load_sm_state clear_sm_state
  begin_connect-clear_sm d e = ground arith
