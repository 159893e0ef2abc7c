-- ===== src/Display/Formatting.antt =====
-- The texts of the text interface, in the markup of Rich: src/xmpp_p2p_chat/text_ui/display.py.
use Prim.Native.String.{[] as empty_text, ◌∷◌ as ◌∷ₜ◌}
use serverless_xmpp.Base.{
  ℕ, zero, suc, ◌-◌, String, ◌||◌, Option, none, some, List, [], ◌∷◌, ◌++◌, ◌==◌, ltb, eqb,
  if◌then◌else◌, truthy, or_else, ◌⧺◌, text_take, text_length, starts_with, map, has_char,
}
use serverless_xmpp.Base.Decimal.{decimal}
use serverless_xmpp.Base.Outcome.{Result, ok, ◌>>=◌}
use serverless_xmpp.Base.Table
use serverless_xmpp.AddressBookHash.Grid.{render_hash_grid_rich}
use serverless_xmpp.XmppStream.{replace_char}
use serverless_xmpp.Display.{
  DirectView, ContactView, PresenceView, presence_key, show_of, presence_symbol,
}

-- `sep.join(parts)`
unfoldable pub join : String → List String → String
join sep [] = ""
join sep (part ∷ []) = part
join sep (part ∷ next ∷ parts) = part ⧺ sep ⧺ join sep (next ∷ parts)

-- `s.replace(part, "")` of a part that is not empty; `skip` characters of it are still to go.
unfoldable pub erase : String → ℕ → String → String
erase part skip empty_text = ""
erase part (suc skip) (c ∷ₜ s) = erase part skip s
erase part zero (c ∷ₜ s) =
    if starts_with (c ∷ₜ s) part
    then erase part (text_length part - 1) s
    else c ∷ₜ erase part zero s

abbrev pub port_text : Option ℕ → String → String
port_text none d = d
port_text (some n) d = decimal n

-- `direct` or the empty dict
abbrev pub no_direct : DirectView
no_direct = record { host = none; port = none; public_key_fingerprint = none }

abbrev pub nonempty_or : Option String → String → String
nonempty_or none d = d
nonempty_or (some s) d = if truthy s then s else d

unfoldable pub transport_label : ContactView → String
transport_label c =
    let direct = or_else c.direct no_direct in
    if or_else c.preferred_transport "xmpp-server" == "direct-p2p"
    then "P2P " ⧺ or_else direct.host "?" ⧺ ":" ⧺ port_text direct.port "?"
    else "XMPP (" ⧺ nonempty_or c.xmpp_server "auto" ⧺ ")"

abbrev pub status_of : String → List PresenceView → String
status_of id presence = elim (Table.find presence_key id presence) [
  | none ↦ ""
  | some e ↦ or_else e.status ""
]

-- The first `n` characters, if the text is longer.
unfoldable pub shortened : ℕ → String → String
shortened n fp = if ltb n (text_length fp) then "[dim]" ⧺ text_take n fp ⧺ "…[/]" else fp

abbrev pub fingerprint_lines : Option String → List String
fingerprint_lines none = []
fingerprint_lines (some fp) = if truthy fp then ("Fingerprint: " ⧺ shortened 48 fp) ∷ [] else []

abbrev pub direct_lines : Option DirectView → List String
direct_lines none = []
direct_lines (some direct) =
    ("Direct: " ⧺ or_else direct.host "None" ⧺ ":" ⧺ port_text direct.port "None")
    ∷ fingerprint_lines direct.public_key_fingerprint

unfoldable pub format_contact_detail : ContactView → List PresenceView → String
unfolding join transport_label shortened show_of presence_symbol
format_contact_detail c presence =
    let show = show_of c.id presence in
    let status = status_of c.id presence in
    join "\n" (
      ("[bold]" ⧺ or_else c.name "?" ⧺ "[/]  (" ⧺ c.id ⧺ ")")
      ∷ ("JID: [cyan]" ⧺ or_else c.jid "?" ⧺ "[/]")
      ∷ ("Transport: " ⧺ transport_label c)
      ∷ ("Presence: "
          ⧺ presence_symbol show
          ⧺ " "
          ⧺ show
          ⧺ (if truthy status then " — " ⧺ status else ""))
      ∷ ((elim c.tags [ [] ↦ [] | t ∷ ts ↦ ("Tags: " ⧺ join ", " (t ∷ ts)) ∷ [] ])
          ++ (if truthy (or_else c.notes "") then ("Notes: " ⧺ or_else c.notes "") ∷ [] else [])
          ++ direct_lines c.direct))

-- `version` is what an f-string makes of it.
unfoldable pub format_contact_summary : String → ℕ → ℕ → ℕ → String
format_contact_summary version contact_count online_count warning_count =
    "v"
    ⧺ version
    ⧺ " · "
    ⧺ decimal contact_count
    ⧺ " contacts · "
    ⧺ decimal online_count
    ⧺ " online"
    ⧺ (if eqb warning_count 0 then "" else " · [yellow]" ⧺ decimal warning_count ⧺ " warn[/]")

unfoldable pub format_local_identity : String → Option ContactView → String
format_local_identity local_jid none =
    "[bold]You:[/] [cyan]" ⧺ local_jid ⧺ "[/] [dim]· not listed in address book[/]"
format_local_identity local_jid (some c) =
    "[bold]You:[/] " ⧺ or_else c.name local_jid ⧺ " [dim](" ⧺ local_jid ⧺ ")[/]"

-- The first characters of a hash, without its prefix.
unfoldable pub short_hash : ℕ → String → String
unfolding erase
short_hash n content_hash = text_take n (erase "SHA256:" 0 content_hash)

unfoldable pub format_hash_compact : String → ℕ → String
unfolding short_hash
format_hash_compact content_hash short_len =
    if truthy content_hash then "[dim]Book " ⧺ short_hash short_len content_hash ⧺ "…[/]" else ""

abbrev pub with_grid : String → String → ℕ → Result String
with_grid title content_hash grid =
    render_hash_grid_rich content_hash grid >>= λ picture. ok (title ⧺ picture)

unfoldable pub format_hash_awaiting : String → ℕ → Result String
unfolding short_hash
format_hash_awaiting content_hash grid =
    if truthy content_hash
    then with_grid
        ("[yellow]Awaiting connection[/] — verify book hash [dim]"
          ⧺ short_hash 12 content_hash
          ⧺ "…[/]\n")
        content_hash grid
    else ok "[yellow]Awaiting connection[/] — loading address book…"

unfoldable pub format_hash_sidebar : String → ℕ → ℕ → Result String
unfolding short_hash
format_hash_sidebar content_hash grid short_len =
    if truthy content_hash
    then with_grid ("[dim]Book hash " ⧺ short_hash short_len content_hash ⧺ "…[/]\n") content_hash
        grid
    else ok ""

-- A time of a message: a `datetime`, by its hours and minutes, or a text.
pub data Stamp : Type 0 where
  at_time text : String → Stamp

-- `clock` reads a time in ISO format, and gives its hours and minutes.
unfoldable pub format_message_timestamp : (String → Option String) → Stamp → String
format_message_timestamp clock (at_time hours_minutes) = hours_minutes
format_message_timestamp clock (text ts) =
    if has_char b'T' ts
    then or_else (clock (replace_char b'Z' "+00:00" ts)) (text_take 5 ts)
    else text_take 5 ts

pub record MessageView : Type 0 where
  pub timestamp : Option Stamp
  pub direction : Option String
  pub status : Option String
  pub body : Option String

unfoldable pub status_marker : String → String
status_marker status =
    if status == "delivered" || status == "sent"
    then " [green]✓[/]"
    else if status == "pending"
    then " [yellow]…[/]"
    else ""

module _ (clock : String → Option String) (peer_name : String) where
  -- The class of style, and the two lines.
  unfoldable pub format_message_line : MessageView → String × String
  unfolding format_message_timestamp status_marker
  format_message_line msg =
      let is_out = or_else msg.direction "in" == "out" in
      let style : String = if is_out then "msg-out" else "msg-in" in
      let align : String = if is_out then "right" else "left" in
      (
        style,
        "["
            ⧺ style
            ⧺ "]["
            ⧺ align
            ⧺ "][dim]"
            ⧺ format_message_timestamp clock (or_else msg.timestamp (text ""))
            ⧺ "[/dim] "
            ⧺ (if is_out then "You" else peer_name)
            ⧺ ":[/"
            ⧺ align
            ⧺ "]\n["
            ⧺ style
            ⧺ "]["
            ⧺ align
            ⧺ "]"
            ⧺ or_else msg.body ""
            ⧺ status_marker (or_else msg.status "")
            ⧺ "[/"
            ⧺ align
            ⧺ "][/"
            ⧺ style
            ⧺ "]",
      )

  unfoldable pub format_message_log : List MessageView → String
  unfolding format_message_line join
  format_message_log [] = "[dim]No messages yet. Say hello![/]"
  format_message_log (m ∷ messages) =
      join "\n\n" (map (λ msg. (format_message_line msg).1) (m ∷ messages))
