-- ===== src/Persistence/Rows.antt =====
-- The rows of the tables and their conversion from and to the models, of
-- src/xmpp_p2p_chat/connection_service/persistence.py.
use serverless_xmpp.Base.{
  ℕ, String, Bool, true, false, Option, none, some, ◌≡◌, refl, ◌==◌, eqb, if◌then◌else◌, arith,
}
use serverless_xmpp.Base.Outcome.{Result, ok, err, value_error, ◌>>=◌}
use serverless_xmpp.Models.{
  Datetime, Message, ChatSession, MessageDirection, in_, out, DeliveryStatus, pending, sent,
  delivered, failed, direction_value, status_value,
}
use serverless_xmpp.Models.JsonData
use serverless_xmpp.Models.JsonData.{Json}

pub record MessageRow : Type 0 where
  pub id : String
  pub chat_id : String
  pub direction : String
  pub body : String
  pub timestamp : Datetime
  pub stanza_id : Option String
  pub delivered : ℕ
  pub read_flag : ℕ
  pub status : String
  pub raw_stanza : Option Json

pub record OutboxRow : Type 0 where
  pub message_id : String
  pub chat_id : String
  pub body : String
  pub created_at : Datetime

pub record ChatRow : Type 0 where
  pub chat_id : String
  pub contact_id : String
  pub remote_jid : String
  pub transport : String
  pub active : ℕ
  pub created_at : Datetime

pub record PresenceRow : Type 0 where
  pub contact_id : String
  pub show : String
  pub status : String
  pub updated_at : Datetime

-- `int(b)` and `bool(n)`
abbrev pub to_int : Bool → ℕ
to_int true = 1
to_int false = 0

abbrev pub to_bool : ℕ → Bool
to_bool n = if eqb n 0 then false else true

-- `json.dumps(raw) if raw else None`: an empty value is stored as NULL. The column is kept as the
-- value that its text encodes.
unfoldable pub stored_stanza : Option Json → Option Json
stored_stanza none = none
stored_stanza (some raw) = if JsonData.truthy raw then some raw else none

unfoldable pub message_row : Message → MessageRow
unfolding direction_value status_value stored_stanza
message_row message = record {
  id = message.id;
  chat_id = message.chat_id;
  direction = direction_value message.direction;
  body = message.body;
  timestamp = message.timestamp;
  stanza_id = message.stanza_id;
  delivered = to_int message.delivered;
  read_flag = to_int message.read;
  status = status_value message.status;
  raw_stanza = stored_stanza message.raw_stanza;
}

-- `MessageDirection(text)` and `DeliveryStatus(text)`
unfoldable pub direction_of : String → Result MessageDirection
direction_of s = if s == "in" then ok in_ else if s == "out" then ok out else err value_error

unfoldable pub status_of : String → Result DeliveryStatus
status_of s =
    if s == "pending"
    then ok pending
    else if s == "sent"
    then ok sent
    else if s == "delivered"
    then ok delivered
    else if s == "failed"
    then ok failed
    else err value_error

unfoldable pub row_to_message : MessageRow → Result Message
row_to_message row = do
  direction ← direction_of row.direction
  status ← status_of row.status
  ok (record {
    id = row.id;
    chat_id = row.chat_id;
    direction = direction;
    body = row.body;
    timestamp = row.timestamp;
    stanza_id = row.stanza_id;
    delivered = to_bool row.delivered;
    read = to_bool row.read_flag;
    status = status;
    raw_stanza = row.raw_stanza;
  })

unfoldable pub chat_row : ChatSession → ChatRow
chat_row session = record {
  chat_id = session.chat_id;
  contact_id = session.contact_id;
  remote_jid = session.remote_jid;
  transport = session.transport;
  active = to_int session.active;
  created_at = session.created_at;
}

unfoldable pub row_to_chat : ChatRow → ChatSession
row_to_chat row = record {
  chat_id = row.chat_id;
  contact_id = row.contact_id;
  remote_jid = row.remote_jid;
  transport = row.transport;
  active = to_bool row.active;
  created_at = row.created_at;
}

pub direction_of-value : (d : MessageDirection) → direction_of (direction_value d) ≡ ok d
unfolding direction_of direction_value
direction_of-value in_ = refl
direction_of-value out = refl

pub status_of-value : (s : DeliveryStatus) → status_of (status_value s) ≡ ok s
unfolding status_of status_value
status_of-value pending = refl
status_of-value sent = refl
status_of-value delivered = refl
status_of-value failed = refl

pub to_bool-to_int : (b : Bool) → to_bool (to_int b) ≡ b
to_bool-to_int true = refl
to_bool-to_int false = refl

-- Reading back the row of a message gives the message, but for a raw stanza that is empty, which
-- is read back as none.
pub row_to_message-message_row :
    (m : Message)
    → row_to_message (message_row m) ≡ ok (record m { raw_stanza = stored_stanza m.raw_stanza })
unfolding row_to_message message_row
row_to_message-message_row m = ground (
  arith,
  direction_of-value m.direction,
  status_of-value m.status,
  to_bool-to_int m.delivered,
  to_bool-to_int m.read,
)

pub row_to_chat-chat_row : (s : ChatSession) → row_to_chat (chat_row s) ≡ s
unfolding row_to_chat chat_row
row_to_chat-chat_row s = ground (arith, to_bool-to_int s.active)
