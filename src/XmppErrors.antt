-- ===== src/XmppErrors.antt =====
-- src/xmpp_p2p_chat/connection_service/xmpp/errors.py: failures of the XMPP library as records.
use serverless_xmpp.Base.{
  String, ◌≡◌, refl, if◌then◌else◌, truthy, Option, none, some, List, ◌==◌, contains, Unicode, ◌⧺◌,
  has_char, false,
}
use serverless_xmpp.Models.{XmppErrorInfo}
use serverless_xmpp.XmppStream.Parse.{
  Element, element, Elements, no_more, child, local_name, attribute, find_child,
}

-- The exceptions that are told apart, each with its text; an `IqError` has its stanza, and an
-- `XMPPError` may have one. A stanza is a tree and its text.
pub data XmppException : Type 0 where
  iq_timeout : String → XmppException
  iq_error : String → Element → String → XmppException
  xmpp_error : String → Element → String → XmppException
  other : String → XmppException

-- The two results of the loop over the children of the error element.
pub record Details : Type 0 where
  pub condition : Option String
  pub text : Option String

unfoldable pub error_details : Elements → Details → Details
unfolding local_name
error_details no_more d = d
error_details (child (element tag attrs text children) es) d = error_details es (
    if local_name tag == "text"
    then (elim text [ none ↦ d | some t ↦ if truthy t then record d { text = some t } else d ])
    else record d { condition = some (local_name tag) })

abbrev pub children_of : Element → Elements
children_of (element tag attrs text children) = children

abbrev pub attributes_of : Element → List (String × String)
attributes_of (element tag attrs text children) = attrs

-- `text or str(exc)`
abbrev pub text_or_exc : Option String → String → String
text_or_exc none exc = exc
text_or_exc (some t) exc = if truthy t then t else exc

unfoldable pub stanza_error : String → Element → String → XmppErrorInfo
unfolding error_details attribute
stanza_error exc stanza raw =
    elim (find_child "{urn:ietf:params:xml:ns:xmpp-stanzas}error" (children_of stanza)) [
      | none ↦ record { condition = none; error_type = none; text = some exc; raw = some raw }
      | some error_elem ↦
          let d =
            error_details (children_of error_elem) (record { condition = none; text = none }) in
          record {
            condition = d.condition;
            error_type = attribute "type" (attributes_of error_elem);
            text = some (text_or_exc d.text exc);
            raw = some raw;
          }
    ]

abbrev pub hints : List String
hints = List.◌∷◌ "not-authorized" (
    List.◌∷◌ "policy-violation" (
      List.◌∷◌ "item-not-found"
        (List.◌∷◌ "remote-server-timeout" (List.◌∷◌ "service-unavailable" List.[]))))

-- The loop over the hints: the first that the text contains.
unfoldable pub first_hint : List String → String → Option String
first_hint List.[] lowered = none
first_hint (List.◌∷◌ hint hs) lowered =
    if contains lowered hint then some hint else first_hint hs lowered

unfoldable pub parse_xmpp_error : Unicode → XmppException → XmppErrorInfo
unfolding stanza_error first_hint
parse_xmpp_error u (iq_timeout exc) = record {
  condition = some "remote-server-timeout";
  error_type = some "cancel";
  text = some "IQ request timed out";
  raw = some exc;
}
parse_xmpp_error u (iq_error exc stanza raw) = stanza_error exc stanza raw
parse_xmpp_error u (xmpp_error exc stanza raw) = stanza_error exc stanza raw
parse_xmpp_error u (other exc) = record {
  condition = first_hint hints (u.lower exc);
  error_type = none;
  text = some exc;
  raw = some exc;
}

-- An `iq` of type "error" whose `error` element is in a namespace, with a type and a condition.
abbrev pub error_stanza : String → String → String → Element
error_stanza ns type condition =
    element "{jabber:client}iq" (List.◌∷◌ ("type", "error") List.[]) none (
      child
        (element ("{" ⧺ ns ⧺ "}error") (List.◌∷◌ ("type", type) List.[]) none (
          child (element ("{urn:ietf:params:xml:ns:xmpp-stanzas}" ⧺ condition) List.[] none no_more)
            no_more))
        no_more)

-- An error stanza as XMPP has it, whose `error` element is in "jabber:client", loses its condition and
-- its type: only the text of the exception is left. Were the element in the namespace of the
-- conditions, both would be read.
pub parse_xmpp_error_drops_condition :
    (u : Unicode) (exc raw type condition : String)
    → has_char b'}' condition ≡ false
    → (condition == "text") ≡ false
    → (parse_xmpp_error u (iq_error exc (error_stanza "jabber:client" type condition) raw)
        ≡ record { condition = none; error_type = none; text = some exc; raw = some raw })
      × (parse_xmpp_error u
            (iq_error exc (error_stanza "urn:ietf:params:xml:ns:xmpp-stanzas" type condition) raw)
          ≡ record {
            condition = some condition;
            error_type = some type;
            text = some exc;
            raw = some raw;
          })
unfolding parse_xmpp_error stanza_error error_details find_child attribute local_name has_char
parse_xmpp_error_drops_condition u exc raw type condition plain named =
    (refl, rw (local_name, plain, named) refl)
