-- ===== src/TextUi/Tests.antt =====
-- Runs of the chat of src/xmpp_p2p_chat/text_ui/app.py.
use serverless_xmpp.Base.{true, false, ◌≡◌, refl, some, [], ◌∷◌, strip, lstrip, rstrip}
use serverless_xmpp.Models.JsonData.{Fields, str, end, field, get, as_str}
use serverless_xmpp.Samples.{ascii}
use serverless_xmpp.TextUi.{
  App, create, optimistic, on_message_submit, send_done, handle_event, replace_message, is_same,
}
use serverless_xmpp.TextUi.Chat.{send_done_lem}

abbrev chatting : App
chatting = record create { current_chat_id = some "alice" }

abbrev named : Fields → Fields
named rest = field "id" (str "m1") rest

abbrev first : Fields
first = named (field "body" (str "hello") end)

abbrev second : Fields
second = named (field "body" (str "hello!") end)

replaced_once : replace_message second (end ∷ first ∷ first ∷ []) ≡ end ∷ second ∷ first ∷ []
unfolding replace_message is_same get as_str
replaced_once = refl

other_chat : (handle_event false "message.received" (some "bob") first chatting).1.messages ≡ []
unfolding handle_event is_same create
other_chat = refl

send_done_lem_example :
    let submitted = on_message_submit ascii "10:00" "hello" chatting in
    let met = (handle_event true "message.received" (some "alice") first submitted).1 in
    ((send_done second submitted).messages ≡ second ∷ [])
    × ((send_done second met).messages ≡ optimistic "10:00" "hello" ∷ second ∷ [])
unfolding create strip lstrip rstrip
send_done_lem_example =
    send_done_lem ascii "alice" "10:00" "hello" chatting refl refl refl true first second
