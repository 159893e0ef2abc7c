-- ===== src/XmppStream.antt =====
-- src/xmpp_p2p_chat/connection_service/transports/xmpp_stream.py: the texts that direct peers
-- exchange. An f-string is a concatenation of its parts.
pub mod Escape
pub mod Header
pub mod Parse
pub mod Spelling
pub mod Tests
use Prim.Native.String.{[], ◌∷◌}
use serverless_xmpp.Base.{
  ℕ, String, Char, code, Bool, true, false, ◌&&◌, ◌||◌, Option, none, some, ◌==◌, eqb,
  if◌then◌else◌, truthy, starts_with, ◌⧺◌,
}

abbrev pub ns_client : String
ns_client = "jabber:client"

abbrev pub ns_stream : String
ns_stream = "http://etherx.jabber.org/streams"

unfoldable pub stream_open : String → String → String
stream_open local_jid remote_jid =
    "<?xml version='1.0'?>" ⧺ "<stream:stream xmlns='" ⧺ ns_client ⧺ "' xmlns:stream='" ⧺ ns_stream
    ⧺ "' " ⧺ "from='" ⧺ local_jid ⧺ "' to='" ⧺ remote_jid ⧺ "' version='1.0'>"

abbrev pub stream_close : String
stream_close = "</stream:stream>"

-- `s.replace(old, new)` for one character `old`
unfoldable pub replace_char : ℕ → String → String → String
replace_char old new [] = []
replace_char old new (c ∷ s) =
    if eqb (code c) old then new ⧺ replace_char old new s else c ∷ replace_char old new s

unfoldable pub escape_xml : String → String
escape_xml text = replace_char b'"' "&quot;" (
    replace_char b'\'' "&apos;"
      (replace_char b'>' "&gt;" (replace_char b'<' "&lt;" (replace_char b'&' "&amp;" text))))

-- `mid` is the message's id, or a fresh one.
unfoldable pub message_stanza : String → String → String → String → String
message_stanza from_jid to_jid body mid =
    "<message xmlns='"
    ⧺ ns_client
    ⧺ "' type='chat' id='"
    ⧺ mid
    ⧺ "' "
    ⧺ "from='"
    ⧺ from_jid
    ⧺ "' to='"
    ⧺ to_jid
    ⧺ "'>"
    ⧺ "<body>"
    ⧺ escape_xml body
    ⧺ "</body></message>"

unfoldable pub show_attr : String → String
show_attr show = if show == "available" then "" else "<show>" ⧺ escape_xml show ⧺ "</show>"

unfoldable pub status_attr : String → String
status_attr status = if truthy status then "<status>" ⧺ escape_xml status ⧺ "</status>" else ""

unfoldable pub presence_stanza : String → String → String → String → String
presence_stanza from_jid to_jid show status =
    "<presence xmlns='"
    ⧺ ns_client
    ⧺ "' from='"
    ⧺ from_jid
    ⧺ "' to='"
    ⧺ to_jid
    ⧺ "'>"
    ⧺ show_attr show
    ⧺ status_attr status
    ⧺ "</presence>"

abbrev pub is_quote : Char → Bool
is_quote c = eqb (code c) b'\'' || eqb (code c) b'"'

-- `([^'\"]+)['\"]` at the front of a text: the group. The flag says whether the class has matched.
unfoldable pub quoted_group : Bool → String → Option String
quoted_group some_before [] = none
quoted_group some_before (c ∷ s) =
    if is_quote c
    then (if some_before then some "" else none)
    else (elim (quoted_group true s) [ none ↦ none | some g ↦ some (c ∷ g) ])

-- `name=['\"]([^'\"]+)['\"]` at the front of a text
unfoldable pub match_attribute : String → String → Option String
match_attribute [] [] = none
match_attribute [] (c ∷ s) = if is_quote c then quoted_group false s else none
match_attribute (n ∷ name) [] = none
match_attribute (n ∷ name) (c ∷ s) = if eqb (code c) (code n) then match_attribute name s else none

-- `re.search`: the leftmost match
unfoldable pub search_attribute : String → String → Option String
search_attribute name [] = none
search_attribute name (c ∷ s) = elim (match_attribute name (c ∷ s)) [
  | none ↦ search_attribute name s
  | some g ↦ some g
]

abbrev pub or_empty : Option String → String
or_empty none = ""
or_empty (some s) = s

-- Both `extract_stream_jids` and `DirectP2PTransport._parse_stream_jids`, on the decoded header.
unfoldable pub extract_stream_jids : String → String × String
unfolding search_attribute match_attribute quoted_group
extract_stream_jids text =
    (or_empty (search_attribute "from=" text), or_empty (search_attribute "to=" text))
