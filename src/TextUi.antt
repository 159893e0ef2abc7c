-- ===== src/TextUi.antt =====
-- The chat of the text interface: `XMPPApp` of src/xmpp_p2p_chat/text_ui/app.py, without its widgets.
-- What a handler does up to its next await is one step, and what a call of the API answers is an
-- argument of the next. A contact is that of Display.antt; a message is a dict of the API, whose id,
-- if any, is a text.
pub mod Chat
pub mod Tests
use serverless_xmpp.Base.{
  remove_prefix, ◌⧺◌, ℕ, suc, String, Bool, true, false, not, ◌&&◌, ◌||◌, Option, none, some, List,
  [], ◌∷◌, ◌++◌, ◌==◌, if◌then◌else◌, truthy, strip, starts_with, remove_prefix, ◌⧺◌, is_some,
  or_else, Unicode,
}
use serverless_xmpp.Base.Table
use serverless_xmpp.Base.Outcome.{Done, ok, err, key_error, runtime_error}
use serverless_xmpp.Models.JsonData as JsonData
use serverless_xmpp.Models.JsonData.{str, Fields, end, field, get}
use serverless_xmpp.Display.{
  ContactView, PresenceView, show_of, presence_symbol, prepare_contact_list,
}
use serverless_xmpp.Display.Formatting.{transport_label}

-- What a handler leaves to be done: a task that draws, or one that calls the API.
pub data Task : Type 0 where
  render_messages render_contacts load_contacts refresh_status : Task
  notify : String → Task
  call_start : String → Task
  call_send : String → String → Task

pub record App : Type 0 where
  pub contacts : List ContactView
  pub presence : List PresenceView
  pub local_jid : String
  pub current_chat_id : Option String
  pub current_contact : Option ContactView
  pub messages : List Fields
  pub contact_filter : String
  pub sort_mode : String
  pub chat_title : String
  pub chat_subtitle : String
  pub input_disabled : Bool
  pub tasks : List Task

abbrev pub contact_key : ContactView → String
contact_key c = c.id

abbrev pub do_task : Task → App → App
do_task task a = record a { tasks = a.tasks ++ task ∷ [] }

-- `a == b` of two values that are texts or `None`
unfoldable pub is_same : Option String → Option String → Bool
is_same none none = true
is_same (some s) (some t) = s == t
is_same none (some t) = false
is_same (some s) none = false

unfoldable pub create : App
create = record {
  contacts = [];
  presence = [];
  local_jid = "";
  current_chat_id = none;
  current_contact = none;
  messages = [];
  contact_filter = "";
  sort_mode = "status";
  chat_title = "";
  chat_subtitle = "";
  input_disabled = true;
  tasks = [];
}

-- `_load_contacts`, with what `addressbook.list` and `connection.status` answer
unfoldable pub load_contacts_done : List ContactView → List PresenceView → Option String → App → App
load_contacts_done contacts presence local_jid a = do_task render_contacts (record a {
  contacts = contacts;
  presence = presence;
  local_jid = or_else local_jid a.local_jid;
})

-- The contacts that `_render_contacts` draws
unfoldable pub shown_contacts : Unicode → App → List ContactView
shown_contacts u a = prepare_contact_list u a.contacts a.presence a.contact_filter a.sort_mode

unfoldable pub on_contact_filter_changed : String → App → App
on_contact_filter_changed value a = do_task render_contacts (record a { contact_filter = value })

unfoldable pub action_toggle_sort : App → App
action_toggle_sort a =
    do_task render_contacts
      (record a { sort_mode = if a.sort_mode == "status" then "name" else "status" })

abbrev pub subtitle : String → ContactView → App → String
subtitle jid contact a =
    let show = show_of contact.id a.presence in
    jid ⧺ " · " ⧺ transport_label contact ⧺ " · " ⧺ presence_symbol show ⧺ " " ⧺ show

-- `_select_contact`, up to the call of "chat.start". A contact without a name or a JID raises, after
-- what stands before.
unfoldable pub select_contact : ContactView → App → Done × App
unfolding show_of presence_symbol transport_label
select_contact contact a =
    let chosen = record a { current_chat_id = some contact.id; current_contact = some contact } in
    elim contact.name as (λ _. Done × App) [
      | none ↦ (err key_error, chosen)
      | some name ↦
          let titled = record chosen { chat_title = "Chat with " ⧺ name } in
          elim contact.jid as (λ _. Done × App) [
            | none ↦ (err key_error, titled)
            | some jid ↦ (
              ok tt,
              do_task (call_start contact.id) (record titled {
                chat_subtitle = subtitle jid contact a;
                input_disabled = false;
              }),
            )
          ]
    ]

unfoldable pub select_found : Option ContactView → App → Done × App
unfolding select_contact
select_found none a = (ok tt, a)
select_found (some contact) a = select_contact contact a

unfoldable pub on_contact_selected : String → App → Done × App
unfolding select_found
on_contact_selected item_id a =
    if starts_with item_id "contact-"
    then select_found (Table.find contact_key (remove_prefix item_id "contact-") a.contacts) a
    else (ok tt, a)

-- The end of `_open_chat`, with the messages of "chat.get_history"
unfoldable pub open_chat_done : List Fields → App → App
open_chat_done messages a = do_task render_messages (record a { messages = messages })

unfoldable pub optimistic : String → String → Fields
optimistic now body =
    field "direction" (str "out")
      (field "body" (str body) (field "timestamp" (str now) (field "status" (str "pending") end)))

-- `on_message_submit`, up to the call of "chat.send_message"
unfoldable pub submit_to : Option String → String → String → App → App
unfolding optimistic
submit_to none now body a = a
submit_to (some chat_id) now body a =
    if truthy body && truthy chat_id
    then do_task (call_send chat_id body)
        (do_task render_messages (record a { messages = a.messages ++ optimistic now body ∷ [] }))
    else a

unfoldable pub on_message_submit : Unicode → String → String → App → App
unfolding submit_to
on_message_submit u now value a = submit_to a.current_chat_id now (strip u.is_space value) a

-- `self.messages[-1] = sent`; an empty list raises, which is told like a failure of the call.
unfoldable pub set_last : Fields → List Fields → Option (List Fields)
set_last sent [] = none
set_last sent (m ∷ []) = some (sent ∷ [])
set_last sent (m ∷ n ∷ ms) = elim (set_last sent (n ∷ ms)) [ none ↦ none | some l ↦ some (m ∷ l) ]

unfoldable pub send_done : Fields → App → App
unfolding set_last
send_done sent a = elim (set_last sent a.messages) [
  | none ↦ do_task (notify "Send failed: list assignment index out of range") a
  | some messages ↦ do_task render_messages (record a { messages = messages })
]

unfoldable pub send_failed : String → App → App
send_failed reason a = do_task (notify ("Send failed: " ⧺ reason)) a

-- The first message with the id of the updated one is replaced.
unfoldable pub replace_message : Fields → List Fields → List Fields
unfolding is_same
replace_message updated [] = []
replace_message updated (m ∷ ms) =
    let rest = replace_message updated ms in
    if is_same (JsonData.as_str (get "id" m)) (JsonData.as_str (get "id" updated))
    then updated ∷ ms
    else m ∷ rest

-- `call_from_thread`, which raises where it is called in the thread of the app.
unfoldable pub call_from_thread : Bool → Task → App → Done × App
call_from_thread in_app task a = if in_app then (err runtime_error, a) else (ok tt, do_task task a)

-- `_handle_event`, with the `chat_id` and the `message` of its parameters
unfoldable pub handle_event : Bool → String → Option String → Fields → App → Done × App
unfolding is_same replace_message call_from_thread
handle_event in_app event chat_id message a =
    if event == "message.received" && is_same chat_id a.current_chat_id
    then call_from_thread in_app render_messages
        (record a { messages = a.messages ++ message ∷ [] })
    else if event == "message.updated" && is_same chat_id a.current_chat_id
    then call_from_thread in_app render_messages
        (record a { messages = replace_message message a.messages })
    else if event == "presence.updated" || event == "addressbook.updated"
    then call_from_thread in_app load_contacts a
    else if event == "connection.changed"
    then call_from_thread in_app refresh_status a
    else (ok tt, a)
