-- ===== src/ApiClient/Unauthorised.antt =====
-- A client with a token, in src/xmpp_p2p_chat/common/api_client.py: `connect` calls "auth" before it
-- sets `_connected`, which every call waits for.
use serverless_xmpp.Base.{
  String, Bool, true, false, ◌≡◌, refl, ap, arith, Option, none, some, List, [], ◌∷◌, ◌++◌, truthy,
  if◌then◌else◌,
}
use serverless_xmpp.Base.Table
use serverless_xmpp.ApiClient.{
  Call, Phase, stopped, dialing, sleeping, authenticating, ApiClient, create, call, go_on, time_out,
  fail_all, fail_pending, lost, next_turn, dialed, await_auth, disconnect, Event, connect_called,
  disconnect_called, woke, dial_done, dial_failed, auth_done, called, went_on, ran_out, received,
  auth_call, closed, broken, step, run, is_stopped, is_dialing, is_reading, is_sleeping, auth_id,
  settled_key,
}

-- Nothing was ever sent, and nothing is awaited or was answered.
pub record IsMute (t : ApiClient) : Type 0 where
  pub required : truthy t.token ≡ true
  pub unset : t.connected ≡ false
  pub idle : t.ready ≡ []
  pub unread : is_reading t.phase ≡ false
  pub awaits_none : t.awaiting ≡ []
  pub pending_none : t.pending ≡ []
  pub settled_none : t.settled ≡ []
  pub sent_none : t.sent ≡ []
  pub heard_none : t.heard ≡ []

-- What else may change.
elsewhere-IsMute :
    (should_run has_ws : Bool) (phase : Phase) (waiting : List Call) (t : ApiClient)
    → is_reading phase ≡ false
    → IsMute t
    → IsMute
        (record t { should_run = should_run; has_ws = has_ws; phase = phase; waiting = waiting })
elsewhere-IsMute should_run has_ws phase waiting t unread h = record {
  required = h.required;
  unset = h.unset;
  idle = h.idle;
  unread = unread;
  awaits_none = h.awaits_none;
  pending_none = h.pending_none;
  settled_none = h.settled_none;
  sent_none = h.sent_none;
  heard_none = h.heard_none;
}

-- A call waits.
call_unset :
    (sends : Bool) (c : Call) (t : ApiClient)
    → t.connected ≡ false
    → call sends c t ≡ record t { waiting = t.waiting ++ c ∷ [] }
unfolding call
call_unset sends c t h = rw (call, h) refl

call-IsMute : (sends : Bool) (c : Call) (t : ApiClient) → IsMute t → IsMute (call sends c t)
call-IsMute sends c t h =
    rw (call_unset sends c t h.unset)
      (elsewhere-IsMute t.should_run t.has_ws t.phase (t.waiting ++ c ∷ []) t h.unread h)

lost_mute :
    (t : ApiClient)
    → IsMute t
    → lost t ≡ record t { phase = if t.should_run then sleeping else stopped }
unfolding lost fail_pending fail_all
lost_mute t h = rw (lost, fail_pending, h.unset, h.pending_none) refl

lost-IsMute : (t : ApiClient) → IsMute t → IsMute (lost t)
unfolding is_reading
lost-IsMute t h =
    let phase : Phase = if t.should_run then sleeping else stopped in
    rw (lost_mute t h) (elsewhere-IsMute t.should_run t.has_ws phase t.waiting t (ground arith) h)

next_turn-IsMute : (t : ApiClient) → IsMute t → IsMute (next_turn t)
unfolding next_turn is_reading
next_turn-IsMute t h =
    let phase : Phase = if t.should_run then dialing else stopped in
    elsewhere-IsMute t.should_run t.has_ws phase t.waiting t (ground arith) h

dialed-IsMute : (id : String) (sends : Bool) (t : ApiClient) → IsMute t → IsMute (dialed id sends t)
unfolding dialed is_reading
dialed-IsMute id sends t h =
    rw (dialed, h.required)
      (call-IsMute sends (auth_call id t.token)
        (record t { has_ws = true; phase = authenticating id })
        (elsewhere-IsMute t.should_run true (authenticating id) t.waiting t refl h))

disconnect-IsMute : (t : ApiClient) → IsMute t → IsMute (disconnect t)
unfolding disconnect is_reading
disconnect-IsMute t h =
    let phase : Phase = if is_reading t.phase then stopped else t.phase in
    let unread : is_reading phase ≡ false = ground (arith, h.unread) in
    elsewhere-IsMute false t.has_ws phase t.waiting t unread h

go_on_idle : (sends : Bool) (t : ApiClient) → t.ready ≡ [] → go_on sends t ≡ t
unfolding go_on
go_on_idle sends t h = simp (go_on, h) refl

time_out_idle : (id : String) (t : ApiClient) → t.awaiting ≡ [] → time_out id t ≡ t
unfolding time_out
time_out_idle id t h = simp (time_out, h) refl

if-IsMute : (b : Bool) (t t' : ApiClient) → IsMute t' → IsMute t → IsMute (if b then t' else t)
if-IsMute true t t' h' h = h'
if-IsMute false t t' h' h = h

auth_done-IsMute :
    (id : Option String) (t : ApiClient)
    → IsMute t
    → IsMute (elim id [ none ↦ t | some id ↦ await_auth (Table.find settled_key id t.settled) t ])
unfolding await_auth Table.find
auth_done-IsMute none t h = h
auth_done-IsMute (some id) t h =
    let absent : Table.find settled_key id t.settled ≡ none =
      ap (Table.find settled_key id) h.settled_none in
    rw absent h

step-IsMute : (e : Event) (t : ApiClient) → IsMute t → IsMute (step e t)
unfolding step is_reading
step-IsMute connect_called t h =
    if-IsMute (is_stopped t.phase) t (record t { should_run = true; phase = dialing })
      (elsewhere-IsMute true t.has_ws dialing t.waiting t refl h) h
step-IsMute disconnect_called t h = disconnect-IsMute t h
step-IsMute woke t h = if-IsMute (is_sleeping t.phase) t (next_turn t) (next_turn-IsMute t h) h
step-IsMute (dial_done id sends) t h =
    if-IsMute (is_dialing t.phase) t (dialed id sends t) (dialed-IsMute id sends t h) h
step-IsMute dial_failed t h = if-IsMute (is_dialing t.phase) t (lost t) (lost-IsMute t h) h
step-IsMute auth_done t h = auth_done-IsMute (auth_id t.phase) t h
step-IsMute (called sends c) t h = call-IsMute sends c t h
step-IsMute (went_on sends) t h = rw (go_on_idle sends t h.idle) h
step-IsMute (ran_out id) t h = rw (time_out_idle id t h.awaits_none) h
step-IsMute (received raises m) t h = rw (step, h.unread) h
step-IsMute closed t h = if-IsMute (is_reading t.phase) t (next_turn t) (next_turn-IsMute t h) h
step-IsMute broken t h = if-IsMute (is_reading t.phase) t (lost t) (lost-IsMute t h) h

run-IsMute : (events : List Event) (t : ApiClient) → IsMute t → IsMute (run events t)
unfolding run
run-IsMute [] t h = h
run-IsMute (e ∷ events) t h = run-IsMute events (step e t) (step-IsMute e t h)

-- A client that has a token never sends anything, is never connected, answers no call and hears no
-- event, whatever happens: its "auth" waits for a connection that is set only after it.
pub run-IsMute_new :
    (token : String) (events : List Event)
    → truthy token ≡ true
    → IsMute (run events (create token))
unfolding create is_reading
run-IsMute_new token events required = run-IsMute events (create token) (record {
  required = required;
  unset = refl;
  idle = refl;
  unread = refl;
  awaits_none = refl;
  pending_none = refl;
  settled_none = refl;
  sent_none = refl;
  heard_none = refl;
})
