-- ===== src/ApiClient/Late.antt =====
-- An answer that comes after its call ran out, in src/xmpp_p2p_chat/common/api_client.py: the
-- cancelled future is still in `_pending`, and takes no result.
use serverless_xmpp.Base.{
  ℕ, String, Bool, true, false, ◌≡◌, refl, ◌∙◌, arith, some, List, [], ◌∷◌, ◌++◌, ◌==◌, Bool-cases,
  Option-cases, eq_iff, inl, inr,
}
use serverless_xmpp.Base.Table
use serverless_xmpp.Base.Outcome.{Error, invalid_state, Result-cases, err}
use serverless_xmpp.Models.JsonData.{null, str, obj, Fields, get}
use serverless_xmpp.ApiClient.{
  sleeping, Future, failed, remove, Reply, answered, refused, timed_out, ApiClient, settle,
  set_result, resolve, error_text, read_message, read_object, after_read, lost, fail_all,
  fail_pending, time_out, is_in, is_reading, future_key, received, ran_out, step, run,
}

late_result :
    (f : Future) (reply : Reply) (t : ApiClient)
    → f.cancelled ≡ true
    → (e : Error) × (set_result f reply t ≡ (err e, t))
unfolding set_result
late_result f reply t h = (invalid_state, rw (set_result, h) refl)

late_resolve :
    (message : Fields) (f : Future) (t : ApiClient)
    → f.cancelled ≡ true
    → (e : Error) × (resolve message f t ≡ (err e, t))
unfolding resolve
late_resolve message f t h = elim (Option-cases (get "error" message)) [
  | inl e ↦ elim (Option-cases (get "result" message)) [
    | inl g ↦ rw (resolve, e, g) (late_result f (answered null) t h)
    | inr (v, g) ↦ rw (resolve, e, g) (late_result f (answered v) t h)
  ]
  | inr (v, e) ↦ elim (Result-cases (error_text v)) [
    | inl (text, g) ↦ rw (resolve, e, g) (late_result f (refused text) t h)
    | inr (x, g) ↦ rw (resolve, e, g) (x, refl)
  ]
]

settle_connected :
    (id : String) (reply : Reply) (t : ApiClient) → (settle id reply t).connected ≡ t.connected
unfolding settle
settle_connected id reply t = elim (Bool-cases (is_in id t.awaiting)) [
  | inl e ↦ rw (settle, e) refl
  | inr e ↦ rw (settle, e) refl
]

fail_all_connected :
    (futures : List Future) (t : ApiClient) → (fail_all futures t).connected ≡ t.connected
unfolding fail_all
fail_all_connected [] t = refl
fail_all_connected (f ∷ futures) t = elim (Bool-cases f.cancelled) [
  | inl e ↦ rw (fail_all, e) (fail_all_connected futures t)
  | inr e ↦
      rw (fail_all, e)
        (fail_all_connected futures (settle f.id failed t) ∙ settle_connected f.id failed t)
]

-- The connection is given up, to be made again after a sleep.
abbrev pub IsGivenUp : ApiClient → Type 0
IsGivenUp t = (t.connected ≡ false) × (t.phase ≡ sleeping) × (t.pending ≡ [])

lost-IsGivenUp : (t : ApiClient) → t.should_run ≡ true → IsGivenUp (lost t)
unfolding lost fail_pending
lost-IsGivenUp t go =
    (fail_all_connected t.pending (record t { connected = false }), rw (lost, go) refl, refl)

module _ (raises : ℕ → Bool) (id : String) (message : Fields)
    (own : get "id" message ≡ some (str id)) where
  late_read :
      (f : Future) (t : ApiClient)
      → Table.find future_key id t.pending ≡ some f
      → f.cancelled ≡ true
      → after_read (read_message raises (some (obj message)) t)
        ≡ lost (record t { pending = Table.delete future_key id t.pending })
  unfolding read_message read_object
  late_read f t present h =
      let late =
        late_resolve message f (record t { pending = Table.delete future_key id t.pending }) h in
      rw (read_message, own, read_object, present, late.1) refl

  step-received :
      (f : Future) (t : ApiClient)
      → is_reading t.phase ≡ true
      → t.should_run ≡ true
      → Table.find future_key id t.pending ≡ some f
      → f.cancelled ≡ true
      → IsGivenUp (step (received raises (some (obj message))) t)
  unfolding step
  step-received f t here go present h =
      rw (step, here, late_read f t present h)
        (lost-IsGivenUp (record t { pending = Table.delete future_key id t.pending }) go)

  timed : ApiClient → ApiClient
  timed t = record t {
    pending = Table.update future_key id (λ f. record f { cancelled = true }) t.pending;
    awaiting = remove id t.awaiting;
    settled = t.settled ++ (record { id = id; reply = timed_out }) ∷ [];
  }

  time_out_lem : (t : ApiClient) → is_in id t.awaiting ≡ true → time_out id t ≡ timed t
  unfolding time_out settle timed
  time_out_lem t e = rw (time_out, settle, e) refl

  -- The answer to a call that ran out ends the connection: the reading loop raises, and the calls that
  -- are still pending are given up with it.
  pub late_answer_gives_up :
      (f : Future) (t : ApiClient)
      → is_reading t.phase ≡ true
      → t.should_run ≡ true
      → is_in id t.awaiting ≡ true
      → Table.find future_key id t.pending ≡ some f
      → IsGivenUp (run (ran_out id ∷ received raises (some (obj message)) ∷ []) t)
  unfolding run step timed
  late_answer_gives_up f t here go waits present =
      let same : (id == id) ≡ true = ground (arith, eq_iff id id) in
      let found : Table.find future_key id (timed t).pending
          ≡ some (record f { cancelled = true }) =
        Table.find-update future_key id (λ g. record g { cancelled = true }) (λ g. refl) id
          t.pending
        ∙ rw (same, present) refl in
      rw (time_out_lem t waits)
        (step-received (record f { cancelled = true }) (timed t) here go found refl)
