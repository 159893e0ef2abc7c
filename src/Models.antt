-- ===== src/Models.antt =====
-- The shared records of src/xmpp_p2p_chat/common/models.py.
-- A `datetime` is its `isoformat()` text, in which every stored one is written and compared.
pub mod JsonData
pub mod Jid
pub mod Schema
use serverless_xmpp.Base.{ℕ, String, Bool, true, false, Option, none, some, List}
use JsonData.{Json}

abbrev pub Datetime : Type 0
Datetime = String

pub data MessageDirection : Type 0 where
  in_ out : MessageDirection

pub data DeliveryStatus : Type 0 where
  pending sent delivered failed : DeliveryStatus

pub record DirectEndpoint : Type 0 where
  pub host : String
  pub port : ℕ
  pub public_key_fingerprint : Option String

pub record ContactCredentials : Type 0 where
  pub username : Option String
  pub password_ref : Option String
  pub password : Option String

pub record Contact : Type 0 where
  pub id : String
  pub jid : String
  pub name : String
  pub avatar : Option String
  pub tags : List String
  pub notes : String
  pub preferred_transport : String
  pub xmpp_server : Option String
  pub direct : Option DirectEndpoint
  pub credentials : Option ContactCredentials
  pub created_at : Datetime
  pub updated_at : Datetime

pub record Message : Type 0 where
  pub id : String
  pub chat_id : String
  pub direction : MessageDirection
  pub body : String
  pub timestamp : Datetime
  pub stanza_id : Option String
  pub delivered : Bool
  pub read : Bool
  pub status : DeliveryStatus
  pub raw_stanza : Option Json

pub record ChatSession : Type 0 where
  pub chat_id : String
  pub contact_id : String
  pub remote_jid : String
  pub transport : String
  pub active : Bool
  pub created_at : Datetime

pub data ConnectionState : Type 0 where
  disconnected connecting connected reconnecting error : ConnectionState

-- `{"enabled": …, "sm_id_present": …}`
pub record StreamManagement : Type 0 where
  pub enabled : Bool
  pub sm_id_present : Bool

pub record TransportStatus : Type 0 where
  pub transport : String
  pub state : ConnectionState
  pub error : Option String
  pub jid : Option String
  pub error_condition : Option String
  pub error_type : Option String
  pub stream_management : Option StreamManagement

pub record XmppErrorInfo : Type 0 where
  pub condition : Option String
  pub error_type : Option String
  pub text : Option String
  pub raw : Option String

-- `status`, which is always `"pending"` and is not stored, is left out.
pub record AddressBookSyncPending : Type 0 where
  pub id : String
  pub from_jid : String
  pub action : String
  pub contact_id : String
  pub payload : Json
  pub received_at : Datetime

pub record AddressBookSyncStatus : Type 0 where
  pub enabled : Bool
  pub auto_apply : Bool
  pub pending_count : ℕ
  pub secret_configured : Bool

-- `StrEnum.value` of the two enumerations that are stored, and the lookup by value.
unfoldable pub direction_value : MessageDirection → String
direction_value in_ = "in"
direction_value out = "out"

unfoldable pub status_value : DeliveryStatus → String
status_value pending = "pending"
status_value sent = "sent"
status_value delivered = "delivered"
status_value failed = "failed"
