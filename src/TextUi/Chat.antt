-- ===== src/TextUi/Chat.antt =====
-- What the chat of src/xmpp_p2p_chat/text_ui/app.py shows of a message that was sent.
use mathlib.Core.List.{append_assoc}
use serverless_xmpp.Base.{
  String, Bool, true, ◌≡◌, refl, ap, ◌∙◌, arith, some, List, [], ◌∷◌, ◌++◌, truthy, strip, Unicode,
  eq_iff, Bool-cases, inl, inr,
}
use serverless_xmpp.Models.JsonData.{Fields}
use serverless_xmpp.TextUi.{
  App, optimistic, on_message_submit, submit_to, set_last, send_done, handle_event, is_same,
  call_from_thread,
}

set_last-append :
    (sent m : Fields) (ms : List Fields) → set_last sent (ms ++ m ∷ []) ≡ some (ms ++ sent ∷ [])
unfolding set_last
set_last-append sent m [] = refl
set_last-append sent m (n ∷ []) = refl
set_last-append sent m (n ∷ o ∷ ms) = rw (set_last, set_last-append sent m (o ∷ ms)) refl

send_done_last :
    (sent m : Fields) (ms : List Fields) (a : App)
    → a.messages ≡ ms ++ m ∷ []
    → (send_done sent a).messages ≡ ms ++ sent ∷ []
unfolding send_done
send_done_last sent m ms a e =
    let found : set_last sent a.messages ≡ some (ms ++ sent ∷ []) =
      ap (set_last sent) e ∙ set_last-append sent m ms in
    rw (send_done, found) refl

module _ (u : Unicode) (chat_id now value : String) (a : App)
    (here : a.current_chat_id ≡ some chat_id) (said : truthy (strip u.is_space value) ≡ true)
    (named : truthy chat_id ≡ true) where
  submit_messages :
      ((on_message_submit u now value a).messages
        ≡ a.messages ++ optimistic now (strip u.is_space value) ∷ [])
      × ((on_message_submit u now value a).current_chat_id ≡ some chat_id)
  unfolding on_message_submit submit_to
  submit_messages = rw (on_message_submit, here, submit_to, said, named) (refl, refl)

  received_messages :
      (in_app : Bool) (m : Fields) (b : App)
      → b.current_chat_id ≡ some chat_id
      → (handle_event in_app "message.received" (some chat_id) m b).1.messages
        ≡ b.messages ++ m ∷ []
  unfolding handle_event is_same call_from_thread
  received_messages in_app m b e =
      let same : is_same (some chat_id) b.current_chat_id ≡ true =
        ap (is_same (some chat_id)) e ∙ ground (arith, eq_iff chat_id chat_id) in
      elim (Bool-cases in_app) [
        | inl f ↦ rw (handle_event, same, call_from_thread, f) refl
        | inr f ↦ rw (handle_event, same, call_from_thread, f) refl
      ]

  -- A message that was sent takes the place of the one shown meanwhile, if nothing came in between; if
  -- a message of the chat was received before the answer, that one is lost from the view, and what was
  -- sent is shown twice, once as pending.
  pub send_done_lem :
      (in_app : Bool) (m sent : Fields)
      → let submitted = on_message_submit u now value a in
        let met = (handle_event in_app "message.received" (some chat_id) m submitted).1 in
        ((send_done sent submitted).messages ≡ a.messages ++ sent ∷ [])
        × ((send_done sent met).messages
            ≡ a.messages ++ optimistic now (strip u.is_space value) ∷ sent ∷ [])
  send_done_lem in_app m sent =
      let submitted = on_message_submit u now value a in
      let mine = optimistic now (strip u.is_space value) in
      let met = (handle_event in_app "message.received" (some chat_id) m submitted).1 in
      (
        send_done_last sent mine a.messages submitted submit_messages.0,
        send_done_last sent m submitted.messages met
              (received_messages in_app m submitted submit_messages.1)
            ∙ ap (λ ms. ms ++ sent ∷ []) submit_messages.0
            ∙ append_assoc a.messages (mine ∷ []) (sent ∷ []),
      )
