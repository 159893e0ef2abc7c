-- ===== src/Session/Books.antt =====
-- The session manager of src/xmpp_p2p_chat/connection_service/session.py reads the address book and
-- leaves it as it is.
use serverless_xmpp.Base.{
  Option, String, List, [], ◌∷◌, ◌≡◌, refl, sym, ap, ◌∙◌, arith, none, truthy, strip, inl, inr,
  Bool-cases, Option-cases, Unicode,
}
use serverless_xmpp.Base.Outcome.{Result, ok, err, ok-injective, chain-ok, Result-cases}
use serverless_xmpp.Base.Table
use serverless_xmpp.Base.Outcome.{Done}
use serverless_xmpp.Config.{AppConfig}
use serverless_xmpp.AddressBook.{Platform, sorted_contacts}
use serverless_xmpp.Session.Links.{
  Links, Answers, reconnect, ensure_needed, drain_after, drained, no_links,
}
use serverless_xmpp.Sanitize.{sanitize_message_body}
use serverless_xmpp.Session.{max_length, outgoing}
use serverless_xmpp.Models.{Datetime, Contact, Message, ChatSession}
use serverless_xmpp.Persistence.{get_pending_outbox}
use serverless_xmpp.AddressBook.{Platform, get}
use serverless_xmpp.Session.{
  SessionManager, Transports, get_transport, start_chat, send_message, find_session, keep_session,
  send_in_session, settle, hand_over, session_key,
}
use serverless_xmpp.Session.Draining.{deliver, drain_list, drain_outbox, resend, recipient}

deliver-book :
    (r : Result String) (message : Message) (m : SessionManager)
    → (deliver r message m).book ≡ m.book
unfolding deliver
deliver-book (ok stanza_id) message m = refl
deliver-book (err e) message m = refl

drain_list-book :
    (net : Transports) (messages : List Message) (m : SessionManager)
    → (drain_list net messages m).book ≡ m.book
unfolding drain_list
drain_list-book net [] m = refl
drain_list-book net (message ∷ messages) m =
    let r = resend net m.default_transport message (recipient m message) in
    drain_list-book net messages (deliver r message m) ∙ deliver-book r message m

pub drain_outbox-book :
    (net : Transports) (m m' : SessionManager) → drain_outbox net m ≡ ok m' → m'.book ≡ m.book
unfolding drain_outbox
drain_outbox-book net m m' h =
    let (messages, e, f) =
      chain-ok (get_pending_outbox none m.db) (λ messages. ok (drain_list net messages m)) h in
    ap (λ x. x.book) (sym (ok-injective f)) ∙ drain_list-book net messages m

settle-book :
    (r : Result String) (message : Message) (m : SessionManager)
    → (settle r message m).1.book ≡ m.book
unfolding settle
settle-book (ok stanza_id) message m = refl
settle-book (err e) message m = refl

module _ (u : Unicode) (net : Transports) (now : Datetime) where
  send_in_session-book :
      (mid : String) (session : ChatSession) (chat_id text : String) (m : SessionManager)
      → (send_in_session u net now mid session chat_id text m).1.book ≡ m.book
  unfolding send_in_session settle
  send_in_session-book mid session chat_id text m =
      elim (Bool-cases (truthy (strip u.is_space (sanitize_message_body text max_length)))) [
        | inr e ↦ rw (send_in_session, e) refl
        | inl e ↦ elim (Option-cases (get session.contact_id m.book)) [
          | inl f ↦ rw (send_in_session, e, f) refl
          | inr (contact, f) ↦
              let message = outgoing now mid chat_id (sanitize_message_body text max_length) in
              rw (send_in_session, e, f)
                (settle-book (hand_over net m.default_transport contact session message) message m)
        ]
      ]

  keep_session-book :
      (chat_id : String) (session : ChatSession) (m : SessionManager)
      → (keep_session chat_id session m).book ≡ m.book
  unfolding keep_session
  keep_session-book chat_id session m = ground arith

  pub send_message-book :
      (mid chat_id text : String) (m : SessionManager)
      → (send_message u net now mid chat_id text m).1.book ≡ m.book
  unfolding send_message keep_session
  send_message-book mid chat_id text m = elim (Option-cases (find_session chat_id m)) [
    | inl e ↦ rw (send_message, e) refl
    | inr (session, e) ↦
        rw (send_message, e)
          (send_in_session-book mid session chat_id text (keep_session chat_id session m)
            ∙ keep_session-book chat_id session m)
  ]

  pub start_chat-book :
      (contact_id : String) (m : SessionManager) (session : ChatSession) (m' : SessionManager)
      → start_chat u net now contact_id m ≡ ok (session, m')
      → m'.book ≡ m.book
  unfolding start_chat
  start_chat-book contact_id m session m' h = ground (
    arith,
    Option-cases (get contact_id m.book),
    Option-cases (Table.find session_key contact_id m.sessions),
    λ (contact : Contact). Result-cases (get_transport net m.default_transport contact),
  )

drained-book :
    (r : Result SessionManager) (m : SessionManager) (l : Links)
    → ((m' : SessionManager) → r ≡ ok m' → m'.book ≡ m.book)
    → (drained r m l).1.book ≡ m.book
drained-book (ok m') m l keeps = keeps m' refl
drained-book (err e) m l keeps = refl

module _ (p : Platform) (c : AppConfig) (answers : Answers) (keyring : String → Option String)
    (net : Transports) where
  drain_after-book : (r : Done × Links) (m : SessionManager) → (drain_after net r m).1.book ≡ m.book
  drain_after-book (ok done, l) m = drained-book (drain_outbox net m) m l (drain_outbox-book net m)
  drain_after-book (err e, l) m = refl

  pub reconnect-book :
      (m : SessionManager) (l : Links) → (reconnect p c answers keyring net m l).1.book ≡ m.book
  unfolding reconnect
  reconnect-book m l =
      drain_after-book
        (ensure_needed p.unicode c (sorted_contacts p m.book.contacts) answers keyring no_links) m
