-- ===== src/Display/StatusPanel.antt =====
-- `format_addressbook_status_panel` of src/xmpp_p2p_chat/text_ui/display.py.
use serverless_xmpp.Base.{
  ℕ, ◌-◌, String, Bool, true, false, ◌&&◌, Option, List, [], ◌∷◌, ◌++◌, ltb, if◌then◌else◌, truthy,
  or_else, ◌⧺◌, take, length, map,
}
use serverless_xmpp.Base.Decimal.{decimal}
use serverless_xmpp.Display.Formatting.{join, shortened}

-- The three dicts, whose entries may be missing; a list that is missing is as good as an empty one.
pub record HealthView : Type 0 where
  pub ok : Option Bool
  pub warnings : List String
  pub pending_outbox : Option ℕ
  pub uptime_seconds : Option ℕ

pub record BookView : Type 0 where
  pub contact_count : Option ℕ
  pub version : Option ℕ
  pub warnings : List String
  pub primary_path : Option String

pub record ConnectionView : Type 0 where
  pub transports : List (Option String × Option String)
  pub p2p_fingerprint : Option String

abbrev pub is_empty : List String → Bool
is_empty [] = true
is_empty (w ∷ warnings) = false

unfoldable pub warn_block : List String → String
warn_block [] = ""
warn_block (w ∷ rest) =
    let warnings = w ∷ rest in
    "\n[yellow]"
    ⧺ join "\n" (map (λ text. "• " ⧺ text) (take 4 warnings))
    ⧺ "[/]"
    ⧺ (if ltb 4 (length warnings)
        then "\n[dim]…and " ⧺ decimal (length warnings - 4) ⧺ " more warnings[/]"
        else "")

abbrev pub or_no_transports : String → String
or_no_transports line = if truthy line then line else "no transports"

unfoldable pub transport_line : List (Option String × Option String) → String
transport_line transports =
    or_no_transports (join " · " (map (λ t. or_else t.0 "?" ⧺ ":" ⧺ or_else t.1 "?") transports))

abbrev pub nonempty_line : String → (String → String) → String
nonempty_line s line = if truthy s then line s else ""

unfoldable pub format_addressbook_status_panel :
    HealthView → BookView → ConnectionView → Option ℕ → String
unfolding warn_block transport_line
format_addressbook_status_panel health ab_status connection contact_count =
    let warnings = ab_status.warnings ++ health.warnings in
    let count = or_else contact_count (or_else ab_status.contact_count 0) in
    (if or_else health.ok true && is_empty warnings
      then "[green]✓ OK[/]"
      else "[yellow]⚠ Issues[/]")
    ⧺ "  [bold]v"
    ⧺ decimal (or_else ab_status.version 0)
    ⧺ "[/] · "
    ⧺ decimal count
    ⧺ " contacts · outbox "
    ⧺ decimal (or_else health.pending_outbox 0)
    ⧺ " · uptime "
    ⧺ decimal (or_else health.uptime_seconds 0)
    ⧺ "s\nTransports: "
    ⧺ transport_line connection.transports
    ⧺ nonempty_line (or_else connection.p2p_fingerprint "")
        (λ fp. "\nP2P fingerprint: " ⧺ shortened 44 fp)
    ⧺ nonempty_line (or_else ab_status.primary_path "") (λ path. "\n[dim]File: " ⧺ path ⧺ "[/]")
    ⧺ warn_block warnings
