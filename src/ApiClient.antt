-- ===== src/ApiClient.antt =====
-- The client of the JSON-RPC server that the interfaces use: `APIClient` of
-- src/xmpp_p2p_chat/common/api_client.py, as a machine over what happens at its awaits: the task of
-- `connect`, the calls, the reading loop and the timeouts. An event that cannot happen in a state
-- changes nothing. Which handlers of events raise is an
-- argument.
pub mod Unauthorised
pub mod Conservation
pub mod Late
pub mod Tests
use serverless_xmpp.Base.{
  String, ℕ, Bool, true, false, ◌&&◌, ◌||◌, not, Option, none, some, List, [], ◌∷◌, ◌++◌, ◌==◌, map,
  if◌then◌else◌, truthy, contains,
}
use serverless_xmpp.Base.Table
use serverless_xmpp.Base.Outcome.{
  Result, Done, ok, err, key_error, type_error, value_error, runtime_error, invalid_state,
}
use serverless_xmpp.Models.JsonData as JsonData
use serverless_xmpp.Models.JsonData.{
  Json, null, bool, int, number, str, arr, obj, Items, nil, cons, Fields, end, field, get,
}

-- A call is named by the id that `uuid4` gives it, which the code draws after the wait.
pub record Call : Type 0 where
  pub id : String
  pub method : String
  pub params : Json

-- An entry of `_pending`; a future is cancelled where `wait_for` ran out.
pub record Future : Type 0 where
  pub id : String
  pub cancelled : Bool

-- What a call comes to for its caller.
pub data Reply : Type 0 where
  answered refused : Json → Reply
  failed timed_out : Reply

pub record Settled : Type 0 where
  pub id : String
  pub reply : Reply

-- Where `connect` stands.
pub data Phase : Type 0 where
  stopped dialing reading sleeping : Phase
  authenticating : String → Phase

unfoldable pub is_stopped : Phase → Bool
is_stopped stopped = true
is_stopped _ = false

unfoldable pub is_dialing : Phase → Bool
is_dialing dialing = true
is_dialing _ = false

unfoldable pub is_reading : Phase → Bool
is_reading reading = true
is_reading _ = false

unfoldable pub is_sleeping : Phase → Bool
is_sleeping sleeping = true
is_sleeping _ = false

unfoldable pub auth_id : Phase → Option String
auth_id (authenticating id) = some id
auth_id _ = none

-- A call waits for `_connected`, is ready to go on since that was set, or awaits its future.
pub record ApiClient : Type 0 where
  pub token : String
  pub should_run : Bool
  pub phase : Phase
  pub has_ws : Bool
  pub connected : Bool
  pub waiting : List Call
  pub ready : List Call
  pub awaiting : List String
  pub pending : List Future
  pub settled : List Settled
  pub sent : List Json
  pub handlers : List ℕ
  pub heard : List (ℕ × Json × Json)

abbrev pub future_key : Future → String
future_key f = f.id

abbrev pub settled_key : Settled → String
settled_key s = s.id

unfoldable pub create : String → ApiClient
create token = record {
  token = token;
  should_run = true;
  phase = stopped;
  has_ws = false;
  connected = false;
  waiting = [];
  ready = [];
  awaiting = [];
  pending = [];
  settled = [];
  sent = [];
  handlers = [];
  heard = [];
}

unfoldable pub on_event : ℕ → ApiClient → ApiClient
on_event handler t = record t { handlers = t.handlers ++ handler ∷ [] }

abbrev pub is_in : String → List String → Bool
is_in id [] = false
is_in id (x ∷ ids) = x == id || is_in id ids

abbrev pub remove : String → List String → List String
remove id [] = []
remove id (x ∷ ids) = let rest = remove id ids in if x == id then ids else x ∷ rest

abbrev pub close_call : String → Reply → ApiClient → ApiClient
close_call id reply t = record t { settled = t.settled ++ (record { id = id; reply = reply }) ∷ [] }

-- A future gets its value: the call that awaits it, if one still does, has its reply.
unfoldable pub settle : String → Reply → ApiClient → ApiClient
settle id reply t =
    if is_in id t.awaiting
    then close_call id reply (record t { awaiting = remove id t.awaiting })
    else t

-- `params or {}`
abbrev pub or_empty : Json → Json
or_empty params = if JsonData.truthy params then params else obj end

unfoldable pub frame_of : Call → Json
frame_of c = obj (
    field "jsonrpc" (str "2.0") (
      field "id" (str c.id)
        (field "method" (str c.method) (field "params" (or_empty c.params) end))))

abbrev pub register : Call → ApiClient → ApiClient
register c t = record t {
  pending = Table.assign future_key (record { id = c.id; cancelled = false }) t.pending;
}

-- The rest of `call` after its wait; `sends` tells whether the socket takes the text.
unfoldable pub call_now : Bool → Call → ApiClient → ApiClient
unfolding frame_of
call_now sends c t =
    if t.has_ws
    then if sends
      then record (register c t) {
        awaiting = t.awaiting ++ c.id ∷ [];
        sent = t.sent ++ frame_of c ∷ [];
      }
      else close_call c.id failed (register c t)
    else close_call c.id failed t

unfoldable pub call : Bool → Call → ApiClient → ApiClient
unfolding call_now
call sends c t =
    if t.connected then call_now sends c t else record t { waiting = t.waiting ++ c ∷ [] }

-- A call that was woken goes on, in the order of their waits.
unfoldable pub go_on : Bool → ApiClient → ApiClient
unfolding call_now
go_on sends t = elim t.ready [ [] ↦ t | c ∷ calls ↦ call_now sends c (record t { ready = calls }) ]

-- `wait_for` runs out: the future is cancelled, and stays in `_pending`.
unfoldable pub time_out : String → ApiClient → ApiClient
unfolding settle
time_out id t =
    if is_in id t.awaiting
    then settle id timed_out (record t {
      pending = Table.update future_key id (λ f. record f { cancelled = true }) t.pending;
    })
    else t

unfoldable pub fail_all : List Future → ApiClient → ApiClient
unfolding settle
fail_all [] t = t
fail_all (f ∷ futures) t = fail_all futures (if f.cancelled then t else settle f.id failed t)

unfoldable pub fail_pending : ApiClient → ApiClient
unfolding fail_all
fail_pending t = record (fail_all t.pending t) { pending = [] }

-- `"error" in message`, and the text of it
unfoldable pub error_text : Json → Result Json
error_text (obj d) = elim (get "message" d) [ none ↦ err key_error | some text ↦ ok text ]
error_text _ = err type_error

-- A future that was cancelled takes no result.
unfoldable pub set_result : Future → Reply → ApiClient → Done × ApiClient
unfolding settle
set_result f reply t = if f.cancelled then (err invalid_state, t) else (ok tt, settle f.id reply t)

unfoldable pub resolve : Fields → Future → ApiClient → Done × ApiClient
unfolding error_text set_result
resolve message f t = elim (get "error" message) [
  | none ↦ elim (get "result" message) [
    | none ↦ set_result f (answered null) t
    | some v ↦ set_result f (answered v) t
  ]
  | some e ↦ elim (error_text e) [ ok text ↦ set_result f (refused text) t | err x ↦ (err x, t) ]
]

-- The handlers are called in their order, up to one that raises.
unfoldable pub tell : (ℕ → Bool) → Json → Json → List ℕ → ApiClient → Done × ApiClient
tell raises event params [] t = (ok tt, t)
tell raises event params (h ∷ handlers) t =
    let told = record t { heard = t.heard ++ (h, event, params) ∷ [] } in
    let rest = tell raises event params handlers told in
    if raises h then (err runtime_error, told) else rest

unfoldable pub read_event : (ℕ → Bool) → Fields → ApiClient → Done × ApiClient
unfolding tell
read_event raises message t = elim (get "method" message) [
  | none ↦ (ok tt, t)
  | some event ↦
      let params : Json = elim (get "params" message) [ none ↦ obj end | some v ↦ v ] in
      tell raises event params t.handlers t
]

-- An object with its `id`; `in self._pending` raises on an `id` that cannot be hashed.
unfoldable pub read_object : (ℕ → Bool) → Fields → Option Json → ApiClient → Done × ApiClient
unfolding resolve read_event
read_object raises message (some (str id)) t = elim (Table.find future_key id t.pending) [
  | none ↦ read_event raises message t
  | some f ↦ resolve message f (record t { pending = Table.delete future_key id t.pending })
]
read_object raises message (some (arr l)) t = (err type_error, t)
read_object raises message (some (obj d)) t = (err type_error, t)
read_object raises message _ t = read_event raises message t

unfoldable pub has_item : String → Items → Bool
has_item key nil = false
has_item key (cons (str s) items) = s == key || has_item key items
has_item key (cons _ items) = has_item key items

-- The body of `_read_loop`, for what `json.loads` makes of the text, if anything.
unfoldable pub read_message : (ℕ → Bool) → Option Json → ApiClient → Done × ApiClient
unfolding read_object has_item
read_message raises none t = (err value_error, t)
read_message raises (some (obj message)) t = read_object raises message (get "id" message) t
read_message raises (some (arr l)) t =
    if has_item "id" l || has_item "method" l then (err type_error, t) else (ok tt, t)
read_message raises (some (str s)) t =
    if contains s "id" || contains s "method" then (err type_error, t) else (ok tt, t)
read_message raises (some _) t = (err type_error, t)

-- The `except Exception` of `connect`.
unfoldable pub lost : ApiClient → ApiClient
unfolding fail_pending
lost t =
    let t' = fail_pending (record t { connected = false }) in
    record t' { phase = if t.should_run then sleeping else stopped }

unfoldable pub next_turn : ApiClient → ApiClient
next_turn t = record t { phase = if t.should_run then dialing else stopped }

-- `_connected.set()`, and the start of the reading loop.
unfoldable pub begin_reading : ApiClient → ApiClient
begin_reading t = record t {
  connected = true;
  ready = t.ready ++ t.waiting;
  waiting = [];
  phase = reading;
}

abbrev pub auth_call : String → String → Call
auth_call id token = record {
  id = id;
  method = "auth";
  params = obj (field "token" (str token) end);
}

-- `websockets.connect` returns; `id` is what `uuid4` gives to a call of "auth".
unfoldable pub dialed : String → Bool → ApiClient → ApiClient
unfolding call begin_reading
dialed id sends t =
    if truthy t.token
    then call sends (auth_call id t.token) (record t { has_ws = true; phase = authenticating id })
    else begin_reading (record t { has_ws = true })

-- The call of "auth" is over: it returned, or it raised.
unfoldable pub auth_over : Reply → ApiClient → ApiClient
unfolding begin_reading lost
auth_over (answered v) t = begin_reading t
auth_over (refused v) t = lost t
auth_over failed t = lost t
auth_over timed_out t = lost t

unfoldable pub await_auth : Option Settled → ApiClient → ApiClient
unfolding auth_over
await_auth none t = t
await_auth (some s) t = auth_over s.reply t

unfoldable pub disconnect : ApiClient → ApiClient
unfolding is_reading
disconnect t = record t {
  should_run = false;
  phase = if is_reading t.phase then stopped else t.phase;
}

pub data Event : Type 0 where
  connect_called disconnect_called woke : Event
  -- `websockets.connect` returns, or raises
  dial_done : String → Bool → Event
  dial_failed : Event
  -- the call of "auth" is over
  auth_done : Event
  -- `call` is called; one that was woken goes on; the wait for an answer runs out
  called : Bool → Call → Event
  went_on : Bool → Event
  ran_out : String → Event
  -- the reading loop gets a text, ends, or meets a broken connection
  received : (ℕ → Bool) → Option Json → Event
  closed broken : Event

abbrev pub after_read : Done × ApiClient → ApiClient
after_read (ok done, t) = t
after_read (err e, t) = lost t

unfoldable pub step : Event → ApiClient → ApiClient
unfolding dialed await_auth call go_on time_out read_message next_turn lost disconnect
step connect_called t =
    if is_stopped t.phase then record t { should_run = true; phase = dialing } else t
step disconnect_called t = disconnect t
step woke t = if is_sleeping t.phase then next_turn t else t
step (dial_done id sends) t = if is_dialing t.phase then dialed id sends t else t
step dial_failed t = if is_dialing t.phase then lost t else t
step auth_done t = elim (auth_id t.phase) [
  | none ↦ t
  | some id ↦ await_auth (Table.find settled_key id t.settled) t
]
step (called sends c) t = call sends c t
step (went_on sends) t = go_on sends t
step (ran_out id) t = time_out id t
step (received raises m) t = if is_reading t.phase then after_read (read_message raises m t) else t
step closed t = if is_reading t.phase then next_turn t else t
step broken t = if is_reading t.phase then lost t else t

unfoldable pub run : List Event → ApiClient → ApiClient
unfolding step
run [] t = t
run (e ∷ events) t = run events (step e t)
