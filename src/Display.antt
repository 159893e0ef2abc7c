-- ===== src/Display.antt =====
-- The text interface's pure helpers, src/xmpp_p2p_chat/text_ui/display.py: this file has the lists of
-- contacts, Display/Formatting.antt the texts. A contact is a dict of the API: its id is there, the
-- other entries may be missing, and each has the type of the model.

pub mod Lists
pub mod Formatting
pub mod StatusPanel
pub mod Tests
use serverless_xmpp.Base.{
  ℕ, String, Bool, true, false, not, ◌&&◌, ◌||◌, Option, none, some, List, [], ◌∷◌, ◌==◌, ltb, eqb,
  if◌then◌else◌, truthy, text_leb, contains, or_else, any, select, Unicode,
}
use serverless_xmpp.Base.Sorting.{sort_by}
use serverless_xmpp.Base.Table
use serverless_xmpp.Models.{TransportStatus, ConnectionState, connected}

-- `contact["direct"]`
pub record DirectView : Type 0 where
  pub host : Option String
  pub port : Option ℕ
  pub public_key_fingerprint : Option String

pub record ContactView : Type 0 where
  pub id : String
  pub name : Option String
  pub jid : Option String
  pub preferred_transport : Option String
  pub xmpp_server : Option String
  pub direct : Option DirectView
  pub tags : List String
  pub notes : Option String

-- An entry of the dict of presences, by the id of the contact.
pub record PresenceView : Type 0 where
  pub contact_id : String
  pub show : Option String
  pub status : Option String

abbrev pub presence_key : PresenceView → String
presence_key e = e.contact_id

-- `presence.get(id, {}).get("show", "offline")`
unfoldable pub show_of : String → List PresenceView → String
show_of id presence = elim (Table.find presence_key id presence) [
  | none ↦ "offline"
  | some e ↦ or_else e.show "offline"
]

-- `presence_symbol`
unfoldable pub presence_symbol : String → String
presence_symbol show =
    if show == "available"
    then "●"
    else if show == "away"
    then "◐"
    else if show == "busy"
    then "◉"
    else "○"

-- `PRESENCE_SORT_ORDER.get(show, 99)`
unfoldable pub sort_rank : String → ℕ
sort_rank show =
    if show == "available"
    then 0
    else if show == "away"
    then 1
    else if show == "busy"
    then 2
    else if show == "offline"
    then 3
    else 99

module _ (u : Unicode) where
  unfoldable pub name_key : ContactView → String
  name_key c = u.lower (or_else c.name "")

  -- The key by name, and the key by presence and then by name.
  unfoldable pub by_name : ContactView → ContactView → Bool
  unfolding name_key
  by_name c d = text_leb (name_key c) (name_key d)

  unfoldable pub rank_of : List PresenceView → ContactView → ℕ
  unfolding show_of sort_rank
  rank_of presence c = sort_rank (show_of c.id presence)

  unfoldable pub by_status : List PresenceView → ContactView → ContactView → Bool
  unfolding rank_of name_key
  by_status presence c d =
      ltb (rank_of presence c) (rank_of presence d)
      || eqb (rank_of presence c) (rank_of presence d) && text_leb (name_key c) (name_key d)

  unfoldable pub contact_order : String → List PresenceView → ContactView → ContactView → Bool
  unfolding by_name by_status
  contact_order mode presence = if mode == "name" then by_name else by_status presence

  unfoldable pub sort_contacts : List ContactView → List PresenceView → String → List ContactView
  unfolding contact_order
  sort_contacts contacts presence mode = sort_by (contact_order mode presence) contacts

  -- The needle, in lower case, is in the name, the JID or the id.
  unfoldable pub matches : String → ContactView → Bool
  matches q c =
      contains (u.lower (or_else c.name "")) q
      || contains (u.lower (or_else c.jid "")) q
      || contains (u.lower c.id) q

  unfoldable pub filter_contacts : List ContactView → String → List ContactView
  unfolding matches
  filter_contacts contacts needle =
      if truthy (u.lower needle) then select (matches (u.lower needle)) contacts else contacts

  unfoldable pub prepare_contact_list :
      List ContactView → List PresenceView → String → String → List ContactView
  unfolding sort_contacts filter_contacts
  prepare_contact_list contacts presence needle sort_mode =
      sort_contacts (filter_contacts contacts needle) presence sort_mode

  unfoldable pub find_local_contact : List ContactView → String → Option ContactView
  find_local_contact [] local_jid = none
  find_local_contact (c ∷ contacts) local_jid =
      if u.lower (or_else c.jid "") == u.lower local_jid
      then some c
      else find_local_contact contacts local_jid

-- `connection`, if it is given: the states of the transports, by their values
unfoldable pub is_transport_connected : Option (List (Option String)) → Bool
is_transport_connected none = false
is_transport_connected (some states) =
    any (λ state. elim state [ none ↦ false | some s ↦ s == "connected" ]) states
