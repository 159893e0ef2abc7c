-- ===== src/Session/Sending.antt =====
-- What happens to a message that is sent, and to the outbox, in
-- src/xmpp_p2p_chat/connection_service/session.py.
use mathlib.Core.Path.{◌∙◌}
use serverless_xmpp.Base.{
  ◌⊎◌, String, Bool, true, false, ◌&&◌, ◌||◌, ◌≡◌, refl, arith, none, some, List, [], ◌∷◌, ◌==◌,
  eq_iff, if◌then◌else◌, is_some, truthy, Unicode, strip,
}
use serverless_xmpp.Base.Outcome.{is_ok, ok, err, value_error, Result}
use serverless_xmpp.Base.Table
use serverless_xmpp.Models.{Message, ChatSession, Datetime, pending, sent}
use serverless_xmpp.Sanitize.{sanitize_message_body}
use serverless_xmpp.Persistence.{
  Db, save_message, mark_sent, mark_delivered, message_key, outbox_key, get_chat,
}
use serverless_xmpp.Persistence.Rows.{message_row}
use serverless_xmpp.Persistence.Outbox.{stored, queued}
use serverless_xmpp.AddressBook.{get}
use serverless_xmpp.Persistence.{get_pending_outbox}
use serverless_xmpp.Persistence.WellFormed.{IsWellFormed}
use serverless_xmpp.Persistence.Outbox.{get_pending_outbox-count}
use serverless_xmpp.Session.Draining.{drain_outbox, recipient, resend, deliver, drain_list}
use serverless_xmpp.Session.{
  SessionManager, Transports, send_in_session, send_message, find_session, keep_session, max_length,
}

-- The message is stored as it was returned; it is sent, and the outbox is the one before, or it is
-- pending, and it is in the outbox.
pub record IsKept (before : Db) (message : Message) (after : Db) : Type 0 where
  pub in_messages : stored message.id after ≡ some (message_row message)
  pub in_outbox :
      ((message.status ≡ sent) × (after.outbox ≡ before.outbox))
      ⊎ ((message.status ≡ pending) × (is_some (queued message.id after) ≡ true))

pub stored-save_message :
    (message : Message) (db : Db)
    → stored message.id (save_message message db) ≡ some (message_row message)
unfolding save_message message_row
stored-save_message message db = ground (
  arith,
  Table.find-upsert message_key message.id (message_row message) db.messages,
  eq_iff message.id message.id,
)

keep_session-kept :
    (chat_id : String) (session : ChatSession) (m : SessionManager)
    → ((keep_session chat_id session m).db ≡ m.db)
      × ((keep_session chat_id session m).book ≡ m.book)
      × ((keep_session chat_id session m).default_transport ≡ m.default_transport)
unfolding keep_session
keep_session-kept chat_id session m = ground arith

module _ (u : Unicode) (net : Transports) (now : Datetime) (mid chat_id text : String)
    (m : SessionManager) where
  -- What the body becomes.
  abbrev clean : String
  clean = sanitize_message_body text max_length

  -- An unknown chat, a text that is blank when it is sanitised, and a contact that is gone are
  -- refused, and neither the database nor what was pushed changes.
  pub send_message_refused :
      (find_session chat_id m ≡ none
        → send_message u net now mid chat_id text m ≡ (err value_error, m))
      × ((session : ChatSession)
          → find_session chat_id m ≡ some session
          → (truthy (strip u.is_space clean) ≡ false) ⊎ (get session.contact_id m.book ≡ none)
          → send_message u net now mid chat_id text m
            ≡ (err value_error, keep_session chat_id session m))
  unfolding send_message send_in_session
  send_message_refused = (
    λ f. rw (send_message, f) refl,
    λ session f bad.
        let (same_db, same_book, same_default) = keep_session-kept chat_id session m in
        ground (arith, same_book),
  )

-- Whether the transports take a queued message.
unfoldable pub delivers : Transports → SessionManager → Message → Bool
delivers net m message = is_ok (resend net m.default_transport message (recipient m message))

-- Whether a message with an id is among those that are taken.
unfoldable pub any_delivered : Transports → SessionManager → String → List Message → Bool
any_delivered net m k [] = false
any_delivered net m k (message ∷ messages) =
    (message.id == k && delivers net m message) || any_delivered net m k messages

deliver-recipient :
    (net : Transports) (r : Result String) (message x : Message) (m : SessionManager)
    → delivers net (deliver r message m) x ≡ delivers net m x
unfolding deliver delivers recipient find_session get_chat mark_delivered mark_sent
deliver-recipient net (ok s) message x m = refl
deliver-recipient net (err e) message x m = refl

any_delivered-deliver :
    (net : Transports) (r : Result String) (message : Message) (k : String) (xs : List Message)
    (m : SessionManager)
    → any_delivered net (deliver r message m) k xs ≡ any_delivered net m k xs
unfolding any_delivered
any_delivered-deliver net r message k [] m = refl
any_delivered-deliver net r message k (x ∷ xs) m =
    rw (deliver-recipient net r message x m, any_delivered-deliver net r message k xs m) refl

deliver-queued :
    (r : Result String) (message : Message) (k : String) (m : SessionManager)
    → queued k (deliver r message m).db
      ≡ (if message.id == k && is_ok r then none else queued k m.db)
unfolding deliver mark_delivered mark_sent is_ok
deliver-queued (ok s) message k m =
    ground (arith, Table.find-delete outbox_key k message.id m.db.outbox)
deliver-queued (err e) message k m = ground arith

join_tests {ℓ} :
    {A : Type ℓ} (x y : A) (b c : Bool)
    → (if c then x else if b then x else y) ≡ (if b || c then x else y)
join_tests x y true true = refl
join_tests x y true false = refl
join_tests x y false true = refl
join_tests x y false false = refl

drain_list-queued :
    (net : Transports) (k : String) (messages : List Message) (m : SessionManager)
    → queued k (drain_list net messages m).db
      ≡ (if any_delivered net m k messages then none else queued k m.db)
unfolding drain_list any_delivered
drain_list-queued net k [] m = refl
drain_list-queued net k (message ∷ messages) m =
    let r = resend net m.default_transport message (recipient m message) in
    drain_list-queued net k messages (deliver r message m)
    ∙ (rw (any_delivered-deliver net r message k messages m, deliver-queued r message k m)
        (unfold delivers in
          join_tests none (queued k m.db) (message.id == k && is_ok r)
            (any_delivered net m k messages)))

-- Draining the outbox of a well-formed database succeeds. It takes a message out of the outbox
-- exactly if it is among those that were read and the transports take it; every other row stays.
pub drain_outbox-queued :
    (net : Transports) (m : SessionManager)
    → IsWellFormed m.db
    → (messages : List Message) × (m' : SessionManager) × (get_pending_outbox none m.db
        ≡ ok messages)
      × (drain_outbox net m ≡ ok m')
      × ((k : String)
          → queued k m'.db ≡ (if any_delivered net m k messages then none else queued k m.db))
unfolding drain_outbox
drain_outbox-queued net m w =
    let (messages, e, n) = get_pending_outbox-count m.db w in
    (messages, drain_list net messages m, e, rw e refl, λ k. drain_list-queued net k messages m)
