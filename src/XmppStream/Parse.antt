-- ===== src/XmppStream/Parse.antt =====
-- `parse_message` and `parse_presence` of
-- src/xmpp_p2p_chat/connection_service/transports/xmpp_stream.py, over the element trees of
-- `xml.etree`. The XML reader is a parameter.
use Prim.Native.String.{[], ◌∷◌}
use serverless_xmpp.Base.{
  inl, inr, Bool-cases, String, Char, code, Bool, true, false, ◌≡◌, refl, eqb, if◌then◌else◌,
  truthy, has_char, is_blank, ◌==◌, Option, none, some, List, or_else,
}
use serverless_xmpp.XmppStream.{presence_stanza}

mutual
  pub data Element : Type 0 where
    element : String → List (String × String) → Option String → Elements → Element

  pub data Elements : Type 0 where
    no_more : Elements
    child : Element → Elements → Elements

-- `s.split("}")[-1]`
unfoldable pub local_name : String → String
local_name [] = []
local_name (c ∷ s) =
    let rest = local_name s in
    if has_char b'}' s then rest else if eqb (code c) b'}' then s else c ∷ s

-- `el.get(name)`
unfoldable pub attribute : String → List (String × String) → Option String
attribute name List.[] = none
attribute name (List.◌∷◌ (key, value) attrs) =
    if key == name then some value else attribute name attrs

abbrev pub nonempty_text : Option String → Option String
nonempty_text none = none
nonempty_text (some s) = if truthy s then some s else none

abbrev pub first_of_two : Option String → Option String → Option String
first_of_two none b = b
first_of_two (some a) b = some a

-- The loop over `root.iter()`, in document order: the text of the first body that has one.
mutual
  unfolding local_name

  pub body_text : Element → Option String
  body_text (element tag attrs text children) =
      if local_name tag == "body"
      then first_of_two (nonempty_text text) (body_texts children)
      else body_texts children

  pub body_texts : Elements → Option String
  body_texts no_more = none
  body_texts (child e es) = first_of_two (body_text e) (body_texts es)

unfoldable pub parse_root : (Char → Bool) → Element → Option (String × String × Option String)
unfolding local_name body_text attribute
parse_root is_space (element tag attrs text children) =
    if local_name tag == "message"
    then elim (body_text (element tag attrs text children)) [
      | none ↦ none
      | some body ↦
          if is_blank is_space body
          then none
          else some (or_else (attribute "from" attrs) "", body, attribute "id" attrs)
    ]
    else none

-- `fromstring` gives `none` where `ET.fromstring` raises `ParseError`.
unfoldable pub parse_message :
    (String → Option Element) → (Char → Bool) → String → Option (String × String × Option String)
unfolding parse_root
parse_message fromstring is_space stanza_xml = elim (fromstring stanza_xml) [
  | none ↦ none
  | some root ↦ parse_root is_space root
]

-- `root.find(tag)`: the first child with the tag
unfoldable pub find_child : String → Elements → Option Element
find_child tag no_more = none
find_child tag (child (element name attrs text children) es) =
    if name == tag then some (element name attrs text children) else find_child tag es

-- `bool(element)`: whether it has children
abbrev pub has_children : Element → Bool
has_children (element tag attrs text no_more) = false
has_children (element tag attrs text (child e es)) = true

-- `a or b` on what `find` returns
unfoldable pub find_or : Option Element → Option Element → Option Element
find_or none b = b
find_or (some a) b = if has_children a then some a else b

abbrev pub text_of : Element → Option String
text_of (element tag attrs text children) = text

-- `el.text if el is not None and el.text else default`
unfoldable pub text_or : Option Element → String → String
text_or none d = d
text_or (some e) d = or_else (nonempty_text (text_of e)) d

unfoldable pub presence_of_root : Element → Option (String × String × String)
unfolding local_name attribute find_child find_or text_or
presence_of_root (element tag attrs text children) =
    if local_name tag == "presence"
    then some (
      or_else (attribute "from" attrs) "",
      text_or (find_or (find_child "{jabber:client}show" children) (find_child "show" children))
          "available",
      text_or (find_or (find_child "{jabber:client}status" children) (find_child "status" children))
          "",
    )
    else none

unfoldable pub parse_presence :
    (String → Option Element) → String → Option (String × String × String)
unfolding presence_of_root
parse_presence fromstring stanza_xml = elim (fromstring stanza_xml) [
  | none ↦ none
  | some root ↦ presence_of_root root
]

abbrev leaf : String → String → Elements → Elements
leaf tag text es = child (element tag (List.[]) (some text) no_more) es

-- The tree of the text that `message_stanza` writes.
abbrev pub message_tree : String → String → String → String → Element
message_tree from_jid to_jid body mid =
    element "{jabber:client}message"
      (List.◌∷◌ ("type", "chat")
        (List.◌∷◌ ("id", mid) (List.◌∷◌ ("from", from_jid) (List.◌∷◌ ("to", to_jid) (List.[])))))
      none (leaf "{jabber:client}body" body no_more)

-- The tree of the text that `presence_stanza` writes.
abbrev pub presence_tree : String → String → String → String → Element
presence_tree from_jid to_jid show status =
    let status_part : Elements =
      if truthy status then leaf "{jabber:client}status" status no_more else no_more in
    element "{jabber:client}presence"
      (List.◌∷◌ ("from", from_jid) (List.◌∷◌ ("to", to_jid) (List.[]))) none
      (if show == "available" then status_part else leaf "{jabber:client}show" show status_part)

module _ (fromstring : String → Option Element) (is_space : Char → Bool)
    (from_jid to_jid : String) where
  pub parse_message-message_tree :
      (stanza_xml body mid : String)
      → fromstring stanza_xml ≡ some (message_tree from_jid to_jid body mid)
      → is_blank is_space body ≡ false
      → parse_message fromstring is_space stanza_xml ≡ some (from_jid, body, some mid)
  unfolding parse_message is_blank has_char
  parse_message-message_tree stanza_xml [] mid reads h = absurd (cc h)
  parse_message-message_tree stanza_xml (c ∷ body) mid reads h =
      rw (reads, parse_message) (rw h refl)

  -- A presence is received as available and with no status, whatever was sent: a leaf is falsy, so
  -- the `or` of `parse_presence` drops the element that the first search has found.
  pub parse_presence_drops_show :
      (show status : String)
      → fromstring (presence_stanza from_jid to_jid show status)
        ≡ some (presence_tree from_jid to_jid show status)
      → parse_presence fromstring (presence_stanza from_jid to_jid show status)
        ≡ some (from_jid, "available", "")
  unfolding parse_presence has_char
  parse_presence_drops_show show [] reads = elim (Bool-cases (show == "available")) [
    | inl e ↦ rw (reads, parse_presence) (rw e refl)
    | inr e ↦ rw (reads, parse_presence) (rw e refl)
  ]
  parse_presence_drops_show show (c ∷ status) reads = elim (Bool-cases (show == "available")) [
    | inl e ↦ rw (reads, parse_presence) (rw e refl)
    | inr e ↦ rw (reads, parse_presence) (rw e refl)
  ]
