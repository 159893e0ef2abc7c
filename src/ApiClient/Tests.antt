-- ===== src/ApiClient/Tests.antt =====
-- Runs of the client of src/xmpp_p2p_chat/common/api_client.py.
use serverless_xmpp.Base.{true, false, ◌≡◌, refl, some, List, [], ◌∷◌, length}
use serverless_xmpp.Base.Table
use serverless_xmpp.Models.JsonData.{bool, str, obj, end, field, Fields, get}
use serverless_xmpp.ApiClient.{
  Call, Future, ApiClient, reading, create, Event, connect_called, dial_done, called, went_on,
  received, ran_out, step, run, is_reading, is_dialing, is_stopped,
}
use serverless_xmpp.ApiClient.Unauthorised.{IsMute, run-IsMute_new}
use serverless_xmpp.ApiClient.Conservation.{known, calls_of, run-known}
use serverless_xmpp.ApiClient.Late.{IsGivenUp, late_answer_gives_up}

abbrev listing : Call
listing = record { id = "c1"; method = "addressbook.list"; params = obj end }

abbrev reply_to_listing : Fields
reply_to_listing = field "id" (str "c1") (field "result" (bool true) end)

-- A connection, a call that was made before it, and the answer.
abbrev visit : List Event
visit =
    called true listing
    ∷ connect_called
    ∷ dial_done "a1" true
    ∷ went_on true
    ∷ received (λ h. false) (some (obj reply_to_listing))
    ∷ []

visit_answers : length (run visit (create "")).settled ≡ 1
unfolding run step create Table.find Table.assign Table.delete get is_reading is_dialing is_stopped
visit_answers = refl

visit_with_token : length (run visit (create "secret")).waiting ≡ 2
unfolding run step create is_dialing is_stopped
visit_with_token = refl

run-IsMute_new_example : IsMute (run visit (create "secret"))
run-IsMute_new_example = run-IsMute_new "secret" visit refl

run-known_example : known "c1" (run visit (create "")) ≡ calls_of "c1" visit (create "")
run-known_example = run-known "" "c1" visit

abbrev late_future : Future
late_future = record { id = "c1"; cancelled = false }

abbrev impatient : ApiClient
impatient = record (create "") {
  phase = reading;
  has_ws = true;
  connected = true;
  awaiting = "c1" ∷ [];
  pending = late_future ∷ [];
}

late_answer_gives_up_example :
    IsGivenUp
      (run (ran_out "c1" ∷ received (λ h. false) (some (obj reply_to_listing)) ∷ []) impatient)
unfolding create is_reading Table.find get
late_answer_gives_up_example =
    late_answer_gives_up (λ h. false) "c1" reply_to_listing refl late_future impatient refl refl
      refl refl
