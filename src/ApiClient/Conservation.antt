-- ===== src/ApiClient/Conservation.antt =====
-- What becomes of the calls of src/xmpp_p2p_chat/common/api_client.py: none is lost, and none is
-- answered twice.
use serverless_xmpp.Base.{
  ℕ, suc, ◌+◌, String, Bool, true, false, ◌≡◌, refl, ap, ◌∙◌, arith, Option, none, some, List, [],
  ◌∷◌, ◌++◌, ◌&&◌, ◌||◌, Option-cases, contains, ◌==◌, truthy, if◌then◌else◌, Bool-cases, inl, inr,
  eq_iff,
}
use serverless_xmpp.Base.Table
use serverless_xmpp.Models.JsonData.{Json, Fields, null, bool, int, number, str, arr, obj, end, get}
use serverless_xmpp.Base.Outcome.{Done, ok, err, type_error, Result-cases}
use serverless_xmpp.ApiClient.{
  read_event, set_result, resolve, read_object, Call, Future, Reply, failed, ApiClient, create,
  call_now, call, go_on, settle, time_out, fail_all, fail_pending, lost, next_turn, dialed,
  auth_over, disconnect, Event, begin_reading, connect_called, disconnect_called, woke, dial_done,
  dial_failed, auth_done, called, went_on, ran_out, received, closed, broken, step, run, is_in,
  remove, is_dialing, is_reading, auth_call, is_stopped, is_sleeping, dialing, await_auth, auth_id,
  resolve, set_result, read_event, read_object, error_text, has_item, answered, refused, timed_out,
  future_key, authenticating, tell, settled_key, close_call, register, read_message, after_read,
}

-- How often an id is there.
unfoldable pub uses {ℓ} : {A : Type ℓ} → (A → String) → String → List A → ℕ
uses key id [] = 0
uses key id (x ∷ xs) = let rest = uses key id xs in if key x == id then suc rest else rest

uses-append {ℓ} :
    {A : Type ℓ} (key : A → String) (id : String) (xs ys : List A)
    → uses key id (xs ++ ys) ≡ uses key id xs + uses key id ys
unfolding uses
uses-append key id [] ys = omega arith
uses-append key id (x ∷ xs) ys = ground (arith, uses-append key id xs ys)

abbrev call_key : Call → String
call_key c = c.id

abbrev same : String → String
same id = id

uses-remove :
    (id j : String) (ids : List String)
    → is_in j ids ≡ true
    → uses same id ids ≡ uses same id (remove j ids) + uses same id (j ∷ [])
unfolding uses
uses-remove id j [] h = absurd (ground (arith, h))
uses-remove id j (x ∷ ids) h = elim (Bool-cases (x == j)) [
  | inl e ↦ ground (arith, e, eq_iff x j)
  | inr e ↦ ground (arith, e, uses-remove id j ids (ground (arith, h, e)))
]

-- The calls with an id, wherever they are.
unfoldable pub known : String → ApiClient → ℕ
known id t =
    uses call_key id t.waiting
    + uses call_key id t.ready
    + uses same id t.awaiting
    + uses settled_key id t.settled

close_call-known :
    (id j : String) (reply : Reply) (t : ApiClient)
    → known id (close_call j reply t) ≡ known id t + uses same id (j ∷ [])
unfolding known uses
close_call-known id j reply t =
    ground (arith, uses-append settled_key id t.settled ((record { id = j; reply = reply }) ∷ []))

settle-known :
    (id j : String) (reply : Reply) (t : ApiClient) → known id (settle j reply t) ≡ known id t
unfolding settle known
settle-known id j reply t = elim (Bool-cases (is_in j t.awaiting)) [
  | inr e ↦ rw (settle, e) refl
  | inl e ↦
      let t' = record t { awaiting = remove j t.awaiting } in
      let closed_ = close_call-known id j reply t' in
      let removed = uses-remove id j t.awaiting e in
      rw (settle, e) (omega (arith, closed_, removed))
]

fail_all-known :
    (id : String) (futures : List Future) (t : ApiClient)
    → known id (fail_all futures t) ≡ known id t
unfolding fail_all
fail_all-known id [] t = refl
fail_all-known id (f ∷ futures) t = elim (Bool-cases f.cancelled) [
  | inl e ↦ rw (fail_all, e) (fail_all-known id futures t)
  | inr e ↦
      rw (fail_all, e)
        (fail_all-known id futures (settle f.id failed t) ∙ settle-known id f.id failed t)
]

lost-known : (id : String) (t : ApiClient) → known id (lost t) ≡ known id t
unfolding lost fail_pending known
lost-known id t = fail_all-known id t.pending (record t { connected = false })

call_now-known :
    (id : String) (sends : Bool) (c : Call) (t : ApiClient)
    → known id (call_now sends c t) ≡ known id t + uses same id (c.id ∷ [])
unfolding call_now known
call_now-known id sends c t = elim (Bool-cases t.has_ws) [
  | inr e ↦ rw (call_now, e) (close_call-known id c.id failed t)
  | inl e ↦ elim (Bool-cases sends) [
    | inl f ↦ rw (call_now, e, f) (omega (arith, uses-append same id t.awaiting (c.id ∷ [])))
    | inr f ↦ rw (call_now, e, f) (close_call-known id c.id failed (register c t))
  ]
]

uses-call : (id : String) (c : Call) → uses call_key id (c ∷ []) ≡ uses same id (c.id ∷ [])
unfolding uses
uses-call id c = refl

if-known :
    (id : String) (b : Bool) (x y : ApiClient) (n : ℕ)
    → known id x ≡ n
    → known id y ≡ n
    → known id (if b then x else y) ≡ n
if-known id true x y n h k = h
if-known id false x y n h k = k

call-known :
    (id : String) (sends : Bool) (c : Call) (t : ApiClient)
    → known id (call sends c t) ≡ known id t + uses same id (c.id ∷ [])
unfolding call known
call-known id sends c t =
    if-known id t.connected (call_now sends c t) (record t { waiting = t.waiting ++ c ∷ [] })
      (known id t + uses same id (c.id ∷ [])) (call_now-known id sends c t)
      (omega (arith, uses-append call_key id t.waiting (c ∷ []), uses-call id c))

woken-known :
    (id : String) (sends : Bool) (ready : List Call) (t : ApiClient)
    → t.ready ≡ ready
    → known id (elim ready [ [] ↦ t | c ∷ calls ↦ call_now sends c (record t { ready = calls }) ])
      ≡ known id t
unfolding known uses
woken-known id sends [] t e = refl
woken-known id sends (c ∷ calls) t e =
    let first : uses call_key id t.ready ≡ uses call_key id (c ∷ calls) = ap (uses call_key id) e in
    let gone = call_now-known id sends c (record t { ready = calls }) in ground (arith, first, gone)

go_on-known : (id : String) (sends : Bool) (t : ApiClient) → known id (go_on sends t) ≡ known id t
unfolding go_on
go_on-known id sends t = woken-known id sends t.ready t refl

time_out-known : (id j : String) (t : ApiClient) → known id (time_out j t) ≡ known id t
unfolding time_out known
time_out-known id j t =
    let t' = record t {
      pending = Table.update future_key j (λ f. record f { cancelled = true }) t.pending;
    } in
    if-known id (is_in j t.awaiting) (settle j timed_out t') t (known id t)
      (settle-known id j timed_out t') refl

begin_reading-known : (id : String) (t : ApiClient) → known id (begin_reading t) ≡ known id t
unfolding begin_reading known uses
begin_reading-known id t = ground (arith, uses-append call_key id t.ready t.waiting)

-- The calls that begin in a step, and in a run.
unfoldable pub begun : String → Event → ApiClient → ℕ
unfolding uses
begun id (called sends c) t = uses same id (c.id ∷ [])
begun id (dial_done j sends) t =
    if is_dialing t.phase && truthy t.token then uses same id (j ∷ []) else 0
begun id _ t = 0

unfoldable pub calls_of : String → List Event → ApiClient → ℕ
unfolding begun
calls_of id [] t = 0
calls_of id (e ∷ events) t = begun id e t + calls_of id events (step e t)

dialed-known :
    (id j : String) (sends : Bool) (t : ApiClient)
    → known id (dialed j sends t)
      ≡ known id t + (if truthy t.token then uses same id (j ∷ []) else 0)
unfolding dialed known
dialed-known id j sends t = elim (Bool-cases (truthy t.token)) [
  | inl e ↦
      rw (dialed, e)
        (call-known id sends (auth_call j t.token)
          (record t { has_ws = true; phase = authenticating j }))
  | inr e ↦ rw (dialed, e) (omega (arith, begin_reading-known id (record t { has_ws = true })))
]

set_result-known :
    (id : String) (f : Future) (reply : Reply) (t : ApiClient)
    → known id (set_result f reply t).1 ≡ known id t
unfolding set_result
set_result-known id f reply t = elim (Bool-cases f.cancelled) [
  | inl e ↦ rw (set_result, e) refl
  | inr e ↦ rw (set_result, e) (settle-known id f.id reply t)
]

resolve-known :
    (id : String) (message : Fields) (f : Future) (t : ApiClient)
    → known id (resolve message f t).1 ≡ known id t
unfolding resolve
resolve-known id message f t = elim (Option-cases (get "error" message)) [
  | inl e ↦ elim (Option-cases (get "result" message)) [
    | inl g ↦ rw (resolve, e, g) (set_result-known id f (answered null) t)
    | inr (v, g) ↦ rw (resolve, e, g) (set_result-known id f (answered v) t)
  ]
  | inr (v, e) ↦ elim (Result-cases (error_text v)) [
    | inl (text, g) ↦ rw (resolve, e, g) (set_result-known id f (refused text) t)
    | inr (x, g) ↦ rw (resolve, e, g) refl
  ]
]

tell-known :
    (id : String) (raises : ℕ → Bool) (event params : Json) (handlers : List ℕ) (t : ApiClient)
    → known id (tell raises event params handlers t).1 ≡ known id t
unfolding tell known
tell-known id raises event params [] t = refl
tell-known id raises event params (h ∷ handlers) t = elim (Bool-cases (raises h)) [
  | inl e ↦ rw (tell, e) refl
  | inr e ↦
      rw (tell, e)
        (tell-known id raises event params handlers
          (record t { heard = t.heard ++ (h, event, params) ∷ [] }))
]

read_event-known :
    (id : String) (raises : ℕ → Bool) (message : Fields) (t : ApiClient)
    → known id (read_event raises message t).1 ≡ known id t
unfolding read_event
read_event-known id raises message t = elim (Option-cases (get "method" message)) [
  | inl e ↦ rw (read_event, e) refl
  | inr (event, e) ↦ elim (Option-cases (get "params" message)) [
    | inl g ↦ rw (read_event, e, g) (tell-known id raises event (obj end) t.handlers t)
    | inr (params, g) ↦ rw (read_event, e, g) (tell-known id raises event params t.handlers t)
  ]
]

read_object-known :
    (id : String) (raises : ℕ → Bool) (message : Fields) (own : Option Json) (t : ApiClient)
    → known id (read_object raises message own t).1 ≡ known id t
unfolding read_object known
read_object-known id raises message none t = read_event-known id raises message t
read_object-known id raises message (some (str j)) t =
    elim (Option-cases (Table.find future_key j t.pending)) [
      | inl e ↦ rw (read_object, e) (read_event-known id raises message t)
      | inr (f, e) ↦
          rw (read_object, e)
            (resolve-known id message f
              (record t { pending = Table.delete future_key j t.pending }))
    ]
read_object-known id raises message (some (arr l)) t = refl
read_object-known id raises message (some (obj d)) t = refl
read_object-known id raises message (some null) t = read_event-known id raises message t
read_object-known id raises message (some (bool b)) t = read_event-known id raises message t
read_object-known id raises message (some (int n)) t = read_event-known id raises message t
read_object-known id raises message (some (number x)) t = read_event-known id raises message t

ignored-known :
    (id : String) (b : Bool) (t : ApiClient)
    → let result : Done × ApiClient = if b then (err type_error, t) else (ok tt, t) in
      known id result.1 ≡ known id t
ignored-known id true t = refl
ignored-known id false t = refl

read_message-known :
    (id : String) (raises : ℕ → Bool) (m : Option Json) (t : ApiClient)
    → known id (read_message raises m t).1 ≡ known id t
unfolding read_message
read_message-known id raises none t = refl
read_message-known id raises (some (obj message)) t =
    read_object-known id raises message (get "id" message) t
read_message-known id raises (some (arr l)) t =
    ignored-known id (has_item "id" l || has_item "method" l) t
read_message-known id raises (some (str s)) t =
    ignored-known id (contains s "id" || contains s "method") t
read_message-known id raises (some null) t = refl
read_message-known id raises (some (bool b)) t = refl
read_message-known id raises (some (int n)) t = refl
read_message-known id raises (some (number x)) t = refl

after_read-known :
    (id : String) (result : Done × ApiClient) → known id (after_read result) ≡ known id result.1
after_read-known id (ok done, t) = refl
after_read-known id (err e, t) = lost-known id t

auth_over-known :
    (id : String) (reply : Reply) (t : ApiClient) → known id (auth_over reply t) ≡ known id t
unfolding auth_over
auth_over-known id (answered v) t = begin_reading-known id t
auth_over-known id (refused v) t = lost-known id t
auth_over-known id failed t = lost-known id t
auth_over-known id timed_out t = lost-known id t

auth_done-known :
    (id : String) (own : Option String) (t : ApiClient)
    → known id (elim own [ none ↦ t | some j ↦ await_auth (Table.find settled_key j t.settled) t ])
      ≡ known id t
unfolding await_auth
auth_done-known id none t = refl
auth_done-known id (some j) t = elim (Option-cases (Table.find settled_key j t.settled)) [
  | inl e ↦ rw e refl
  | inr (s, e) ↦ rw e (auth_over-known id s.reply t)
]

-- An event that begins no call.
plain-known :
    (id : String) (b : Bool) (x t : ApiClient)
    → known id x ≡ known id t
    → known id (if b then x else t) ≡ known id t + 0
plain-known id b x t h = omega (arith, if-known id b x t (known id t) h refl)

step-known :
    (id : String) (e : Event) (t : ApiClient) → known id (step e t) ≡ known id t + begun id e t
unfolding step begun known next_turn disconnect
step-known id connect_called t =
    plain-known id (is_stopped t.phase) (record t { should_run = true; phase = dialing }) t refl
step-known id disconnect_called t = omega arith
step-known id woke t = plain-known id (is_sleeping t.phase) (next_turn t) t refl
step-known id (dial_done j sends) t = elim (Bool-cases (is_dialing t.phase)) [
  | inl e ↦ rw (step, begun, e) (dialed-known id j sends t)
  | inr e ↦ rw (step, begun, e) (omega arith)
]
step-known id dial_failed t = plain-known id (is_dialing t.phase) (lost t) t (lost-known id t)
step-known id auth_done t = omega (arith, auth_done-known id (auth_id t.phase) t)
step-known id (called sends c) t = call-known id sends c t
step-known id (went_on sends) t = omega (arith, go_on-known id sends t)
step-known id (ran_out j) t = omega (arith, time_out-known id j t)
step-known id (received raises m) t =
    plain-known id (is_reading t.phase) (after_read (read_message raises m t)) t
      (after_read-known id (read_message raises m t) ∙ read_message-known id raises m t)
step-known id closed t = plain-known id (is_reading t.phase) (next_turn t) t refl
step-known id broken t = plain-known id (is_reading t.phase) (lost t) t (lost-known id t)

run-known_from :
    (id : String) (events : List Event) (t : ApiClient)
    → known id (run events t) ≡ known id t + calls_of id events t
unfolding run calls_of
run-known_from id [] t = omega arith
run-known_from id (e ∷ events) t =
    omega (arith, run-known_from id events (step e t), step-known id e t)

-- Whatever happens, every call that was made is in exactly one place, and as often as it was made: it
-- waits for the connection, is about to be sent, awaits its answer, or has its one reply.
pub run-known :
    (token id : String) (events : List Event)
    → known id (run events (create token)) ≡ calls_of id events (create token)
unfolding known create uses
run-known token id events = omega (arith, run-known_from id events (create token))
