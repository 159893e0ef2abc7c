-- ===== src/XmppStream/Tests.antt =====
-- Instances of the theorems on the texts of direct peers.
use serverless_xmpp.Base.{
  String, Option, ◌==◌, if◌then◌else◌, none, some, ◌≡◌, refl, code, eqb, has_char, is_blank,
}
use serverless_xmpp.XmppStream.Escape.{escape_char, all_text, unescape, unescape-escape_xml}
use serverless_xmpp.XmppStream.Spelling.{
  spell_text, spell_root, spell_attributes, spell_children, parse_message-message_stanza,
}
use serverless_xmpp.XmppStream.Header.{IsPlain}
use serverless_xmpp.XmppStream.Parse.{
  Element, local_name, message_tree, presence_tree, parse_message, parse_presence,
  parse_presence_drops_show,
}
use serverless_xmpp.XmppStream.{escape_xml, message_stanza, presence_stanza}

unescape-escape_xml_example : unescape none (escape_xml "a < 'b' & c") ≡ some "a < 'b' & c"
unfolding all_text
unescape-escape_xml_example = unescape-escape_xml "a < 'b' & c" refl

me-IsPlain : IsPlain "me@p2p.local"
unfolding has_char
me-IsPlain = record { nonempty = refl; no_apostrophe = refl; no_quote = refl }

you-IsPlain : IsPlain "you@p2p.local"
unfolding has_char
you-IsPlain = record { nonempty = refl; no_apostrophe = refl; no_quote = refl }

abbrev greeting : Element
greeting = message_tree "me@p2p.local" "you@p2p.local" "1 < 2" "m1"

-- A reader of this one message.
abbrev one_reader : String → Option Element
one_reader s = if s == spell_root "jabber:client" greeting then some greeting else none

parse_message-message_stanza_example :
    (message_stanza "me@p2p.local" "you@p2p.local" "1 < 2" "m1"
      ≡ spell_root "jabber:client" greeting)
    × (parse_message one_reader
          (λ c. eqb (code c) 32)
          (message_stanza "me@p2p.local" "you@p2p.local" "1 < 2" "m1")
        ≡ some ("me@p2p.local", "1 < 2", some "m1"))
unfolding is_blank spell_text spell_root spell_attributes spell_children escape_char local_name
    has_char
parse_message-message_stanza_example =
    parse_message-message_stanza one_reader (λ c. eqb (code c) 32) "me@p2p.local" "you@p2p.local"
      "1 < 2" "m1" refl refl refl refl refl

parse_presence_drops_show_example :
    parse_presence
      (λ s. some (presence_tree "me@p2p.local" "you@p2p.local" "away" "lunch"))
      (presence_stanza "me@p2p.local" "you@p2p.local" "away" "lunch")
    ≡ some ("me@p2p.local", "available", "")
parse_presence_drops_show_example =
    parse_presence_drops_show
      (λ s. some (presence_tree "me@p2p.local" "you@p2p.local" "away" "lunch"))
      (λ c. eqb (code c) 32) "me@p2p.local" "you@p2p.local" "away" "lunch" refl
