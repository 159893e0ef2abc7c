-- ===== src/CommonTests.antt =====
-- Instances of the theorems on the modules without tests of their own: the content hash of address
-- books, and the errors of the XMPP library.
use mathlib.Core.List.{Permᴰ}
use serverless_xmpp.Base.{has_char, ℕ, none, some, List, [], ◌∷◌, ◌≡◌, refl}
use serverless_xmpp.Base.Table
use serverless_xmpp.Models.JsonData
use serverless_xmpp.Models.JsonData.{Fields, field, end, str}
use serverless_xmpp.Samples.{ascii}
use serverless_xmpp.XmppErrors.{
  iq_error, error_stanza, parse_xmpp_error, parse_xmpp_error_drops_condition,
}
use serverless_xmpp.AddressBookHash.{compute_content_hash}
use serverless_xmpp.AddressBookHash.Canonical.{compute_content_hash_perm}

abbrev a_contact : Fields
a_contact = field "id" (str "a") end

abbrev b_contact : Fields
b_contact = field "id" (str "b") end

compute_content_hash_perm_example :
    compute_content_hash (λ ds. "00") (a_contact ∷ b_contact ∷ [])
    ≡ compute_content_hash (λ ds. "00") (b_contact ∷ a_contact ∷ [])
unfolding Table.find JsonData.get
compute_content_hash_perm_example =
    compute_content_hash_perm (λ ds. "00") (Permᴰ.swap refl refl) (refl, (refl, tt))

abbrev digits : List ℕ
digits = 0 ∷ 10 ∷ 1 ∷ 15 ∷ []

parse_xmpp_error_drops_condition_example :
    (parse_xmpp_error ascii
        (iq_error "failed" (error_stanza "jabber:client" "cancel" "item-not-found") "<iq/>")
      ≡ record { condition = none; error_type = none; text = some "failed"; raw = some "<iq/>" })
    × (parse_xmpp_error ascii (
          iq_error "failed"
            (error_stanza "urn:ietf:params:xml:ns:xmpp-stanzas" "cancel" "item-not-found")
            "<iq/>")
        ≡ record {
          condition = some "item-not-found";
          error_type = some "cancel";
          text = some "failed";
          raw = some "<iq/>";
        })
unfolding has_char
parse_xmpp_error_drops_condition_example =
    parse_xmpp_error_drops_condition ascii "failed" "<iq/>" "cancel" "item-not-found" refl refl
