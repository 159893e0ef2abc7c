-- ===== src/DirectP2p/Reading.antt =====
-- What a peer sends, in src/xmpp_p2p_chat/connection_service/transports/direct_p2p.py: the opening of
-- the stream, and the loop that takes stanzas out of the chunks. Chunks are texts that decode.
use serverless_xmpp.Base.{
  ◌&&◌, ℕ, zero, suc, String, Char, Bool, true, false, Option, none, some, List, ◌++◌, ltb,
  if◌then◌else◌, truthy, Unicode, text_length, ◌⧺◌,
}
use serverless_xmpp.XmppStream.Parse.{Element, parse_message, parse_presence}
use serverless_xmpp.DirectP2p.{DirectP2p, read_ended, split_at, extract_stanza}

-- The stanzas that the inner loop takes, and what it leaves in the buffer. The fuel is more than the
-- length of the buffer.
unfoldable pub take_stanzas : ℕ → String → List String × String
take_stanzas zero buffer = (List.[], buffer)
take_stanzas (suc fuel) buffer =
    let (found, rest) = extract_stanza buffer in
    elim found [
      | none ↦ (List.[], rest)
      | some stanza ↦ let more = take_stanzas fuel rest in (List.◌∷◌ stanza more.0, more.1)
    ]

unfoldable pub inner_loop : String → List String × String
unfolding take_stanzas
inner_loop buffer = take_stanzas (suc (text_length buffer)) buffer

-- The calls of the two handlers.
pub data Heard : Type 0 where
  heard_message : String → String → Option String → Heard
  heard_presence : String → String → String → Heard

abbrev pub as_presence : Option (String × String × String) → List Heard
as_presence none = List.[]
as_presence (some (from_jid, show, status)) = List.◌∷◌ (heard_presence from_jid show status) List.[]

abbrev pub as_heard :
    Option (String × String × Option String) → Option (String × String × String) → List Heard
as_heard (some (from_jid, body, stanza_id)) presence =
    List.◌∷◌ (heard_message from_jid body stanza_id) List.[]
as_heard none presence = as_presence presence

module _ (fromstring : String → Option Element) (is_space : Char → Bool) where
  -- `_dispatch_stanza`
  unfoldable pub dispatch_stanza : String → List Heard
  dispatch_stanza stanza_xml =
      as_heard (parse_message fromstring is_space stanza_xml) (parse_presence fromstring stanza_xml)

  unfoldable pub dispatch_all : List String → List Heard
  unfolding dispatch_stanza
  dispatch_all List.[] = List.[]
  dispatch_all (List.◌∷◌ stanza stanzas) = dispatch_stanza stanza ++ dispatch_all stanzas

  -- The outer loop, from a buffer on; an empty chunk is the end of the stream.
  unfoldable pub read_chunks : String → List String → List Heard
  unfolding dispatch_all inner_loop
  read_chunks buffer List.[] = List.[]
  read_chunks buffer (List.◌∷◌ chunk chunks) =
      let taken = inner_loop (buffer ⧺ chunk) in
      let rest = read_chunks taken.1 chunks in
      if truthy chunk then dispatch_all taken.0 ++ rest else List.[]

  unfoldable pub read_loop : Unicode → String → List String → DirectP2p → List Heard × DirectP2p
  unfolding read_chunks
  read_loop u remote_jid chunks t = (read_chunks "" chunks, read_ended u remote_jid t)

-- The text up to the end of the opening tag, if it is there.
unfoldable pub opening_in : String → Option String
opening_in text = elim (split_at "<stream:stream" text) [
  | none ↦ none
  | some (before, from_start) ↦ elim (split_at ">" from_start) [
    | none ↦ none
    | some (inside, rest) ↦ some (before ⧺ inside ⧺ ">")
  ]
]

-- `_read_stream_open`, from what is read already
unfoldable pub read_stream_open : ℕ → String → List String → String
unfolding opening_in
read_stream_open limit text List.[] = text
read_stream_open limit text (List.◌∷◌ chunk chunks) =
    elim (ltb (text_length text) limit && truthy chunk) [
      | false ↦ text
      | true ↦ elim (opening_in (text ⧺ chunk)) [
        | some header ↦ header
        | none ↦ read_stream_open limit (text ⧺ chunk) chunks
      ]
    ]
