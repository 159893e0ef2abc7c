-- ===== src/SmState.antt =====
-- src/xmpp_p2p_chat/connection_service/xmpp/sm_state.py: the stream-management state kept between
-- connections, one file for a data directory.
use serverless_xmpp.Base.{ℕ, String, ◌≡◌, refl, if◌then◌else◌, Option, none, some, ◌==◌, Unicode}
use serverless_xmpp.Models.{Datetime}

pub record StreamManagementState : Type 0 where
  pub jid : String
  pub sm_id : Option String
  pub handled : ℕ
  pub last_ack : ℕ
  pub saved_at : Datetime

-- The file: missing, not readable as a state, or with the entries of `to_dict`.
pub data SmFile : Type 0 where
  missing unreadable : SmFile
  saved : StreamManagementState → SmFile

unfoldable pub load_sm_state : Unicode → SmFile → String → Option StreamManagementState
load_sm_state u missing jid = none
load_sm_state u unreadable jid = none
load_sm_state u (saved state) jid = if u.lower state.jid == u.lower jid then some state else none

-- The file is replaced whole.
unfoldable pub save_sm_state : Datetime → StreamManagementState → SmFile → SmFile
save_sm_state now state file = saved (record state { saved_at = now })

unfoldable pub clear_sm_state : SmFile → SmFile
clear_sm_state file = missing

-- What was saved is loaded for the same JID, in whatever case it is written, with the time of the
-- write; for any other JID there is nothing, and neither is there after the file is cleared.
pub load_sm_state-save_sm_state :
    (u : Unicode) (now : Datetime) (state : StreamManagementState) (file : SmFile) (jid : String)
    → (load_sm_state u (save_sm_state now state file) jid ≡ (
        if u.lower state.jid == u.lower jid then some (record state { saved_at = now }) else none))
      × (load_sm_state u (clear_sm_state (save_sm_state now state file)) jid ≡ none)
unfolding load_sm_state save_sm_state clear_sm_state
load_sm_state-save_sm_state u now state file jid = (refl, refl)
