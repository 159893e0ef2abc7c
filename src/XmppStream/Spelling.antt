-- ===== src/XmppStream/Spelling.antt =====
-- How XML spells an element tree, and the message that
-- src/xmpp_p2p_chat/connection_service/transports/xmpp_stream.py writes. The children of a root are in
-- its namespace, which the root declares.
use Prim.Native.String.{[], ◌∷◌}
use serverless_xmpp.Base.{
  String, Char, Bool, false, ◌≡◌, refl, ap, ◌∙◌, Option, none, some, List, ◌⧺◌, is_blank, has_char,
}
use serverless_xmpp.XmppStream.{escape_xml, message_stanza, replace_char}
use serverless_xmpp.XmppStream.Escape.{escape_char, escape_xml-cons}
use serverless_xmpp.XmppStream.Parse.{
  Element, element, Elements, no_more, child, local_name, parse_message, parse_message-message_tree,
  message_tree,
}

-- A text, each of its special characters as its entity.
unfoldable pub spell_text : String → String
unfolding escape_char
spell_text [] = []
spell_text (c ∷ s) = escape_char c ⧺ spell_text s

abbrev pub spell_optional : Option String → String
spell_optional none = []
spell_optional (some s) = spell_text s

-- Each of these puts what it spells before a rest.
unfoldable pub spell_attributes : List (String × String) → String → String
unfolding spell_text
spell_attributes List.[] rest = rest
spell_attributes (List.◌∷◌ (name, value) attrs) rest =
    " " ⧺ name ⧺ "='" ⧺ spell_text value ⧺ "'" ⧺ spell_attributes attrs rest

unfoldable mutual
  unfolding local_name spell_attributes

  pub spell_child : Element → String → String
  spell_child (element tag attrs text children) rest =
      "<"
      ⧺ local_name tag
      ⧺ spell_attributes attrs
          (">" ⧺ spell_optional text ⧺ spell_children children ("</" ⧺ local_name tag ⧺ ">" ⧺ rest))

  pub spell_children : Elements → String → String
  spell_children no_more rest = rest
  spell_children (child e es) rest = spell_child e (spell_children es rest)

-- A root that declares the namespace.
unfoldable pub spell_root : String → Element → String
unfolding local_name spell_attributes spell_children
spell_root ns (element tag attrs text children) =
    "<"
    ⧺ local_name tag
    ⧺ " xmlns='"
    ⧺ ns
    ⧺ "'"
    ⧺ spell_attributes attrs
        (">" ⧺ spell_optional text ⧺ spell_children children ("</" ⧺ local_name tag ⧺ ">"))

escape_xml-spell_text : (s : String) → escape_xml s ≡ spell_text s
unfolding spell_text escape_xml replace_char
escape_xml-spell_text [] = refl
escape_xml-spell_text (c ∷ s) =
    escape_xml-cons c s ∙ ap (λ t. escape_char c ⧺ t) (escape_xml-spell_text s)

message_stanza-spelled :
    (from_jid to_jid body mid : String)
    → spell_text from_jid ≡ from_jid
    → spell_text to_jid ≡ to_jid
    → spell_text mid ≡ mid
    → message_stanza from_jid to_jid body mid
      ≡ spell_root "jabber:client" (message_tree from_jid to_jid body mid)
unfolding message_stanza spell_root local_name has_char spell_attributes spell_children
message_stanza-spelled from_jid to_jid body mid f t m =
    rw (message_stanza, f, t, m, escape_xml-spell_text body) refl

-- A message that is not blank, between JIDs and with an id that have no special character of XML, is
-- written as XML spells its tree, with the body's special characters as entities; a peer whose XML
-- reader reads that spelling as the tree receives the sender, the body and the id.
pub parse_message-message_stanza :
    (fromstring : String → Option Element) (is_space : Char → Bool)
    (from_jid to_jid body mid : String)
    → spell_text from_jid ≡ from_jid
    → spell_text to_jid ≡ to_jid
    → spell_text mid ≡ mid
    → fromstring (spell_root "jabber:client" (message_tree from_jid to_jid body mid))
      ≡ some (message_tree from_jid to_jid body mid)
    → is_blank is_space body ≡ false
    → (message_stanza from_jid to_jid body mid
        ≡ spell_root "jabber:client" (message_tree from_jid to_jid body mid))
      × (parse_message fromstring is_space (message_stanza from_jid to_jid body mid)
          ≡ some (from_jid, body, some mid))
parse_message-message_stanza fromstring is_space from_jid to_jid body mid f t m reads h =
    let spelled = message_stanza-spelled from_jid to_jid body mid f t m in
    (
      spelled,
      parse_message-message_tree fromstring is_space from_jid to_jid
          (message_stanza from_jid to_jid body mid) body mid (ap fromstring spelled ∙ reads) h,
    )
