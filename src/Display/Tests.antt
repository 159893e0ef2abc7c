-- ===== src/Display/Tests.antt =====
-- Two contacts, of whom one is there.
use serverless_xmpp.Base.{String, none, some, List, [], ◌∷◌, select}
use mathlib.Core.List.{Perm}
use serverless_xmpp.Base.Sorting.{IsSorted}
use serverless_xmpp.Samples.{ascii}
use serverless_xmpp.Display.{ContactView, PresenceView, prepare_contact_list}
use serverless_xmpp.Display.Lists.{has_needle, shown_before, prepare_contact_list_lem}

abbrev named : String → String → ContactView
named id name = record {
  id = id;
  name = some name;
  jid = some "x@example.org";
  preferred_transport = none;
  xmpp_server = none;
  direct = none;
  tags = [];
  notes = none;
}

abbrev contacts : List ContactView
contacts = named "1" "bob" ∷ named "2" "alice" ∷ []

abbrev presence : List PresenceView
presence = record { contact_id = "1"; show = some "available"; status = none } ∷ []

prepare_contact_list_lem_example :
    let shown = prepare_contact_list ascii contacts presence "b" "status" in
    Perm shown (select (has_needle ascii "b") contacts)
    × IsSorted (shown_before ascii "status" presence) shown
prepare_contact_list_lem_example = prepare_contact_list_lem ascii contacts presence "b" "status"
