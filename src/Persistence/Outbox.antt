-- ===== src/Persistence/Outbox.antt =====
-- The outbox of src/xmpp_p2p_chat/connection_service/persistence.py: what is queued stays queued
-- until it is marked as delivered.
use serverless_xmpp.Base.{
  ◌∙◌, suc, String, Option, none, some, List, [], ◌∷◌, true, ◌≡◌, refl, ap, inl, inr, arith, ◌==◌,
  if◌then◌else◌, All, is_some, length, select, Option-cases,
}
use mathlib.Core.Option
use serverless_xmpp.Base.Sorting.{sort_by, All-sort_by, length-sort_by}
use serverless_xmpp.Base.Outcome.{ok}
use serverless_xmpp.Base.Table
use serverless_xmpp.Models.{Message}
use serverless_xmpp.Persistence.Rows.{MessageRow, OutboxRow, message_row}
use serverless_xmpp.Persistence.WellFormed.{Decodes, HasMessage, IsWellFormed}
use serverless_xmpp.Persistence.History.{decode_all-AllDecoded, AllDecoded-length}
use serverless_xmpp.Persistence.{
  Db, message_key, outbox_key, save_message, queue_outbound, mark_delivered, set_delivered,
  by_created_at, join_messages, in_outbox, pending_rows, get_pending_outbox, pending_outbox_count,
}

-- Whether a message is queued.
abbrev pub queued : String → Db → Option OutboxRow
queued k db = Table.find outbox_key k db.outbox

abbrev pub stored : String → Db → Option MessageRow
stored k db = Table.find message_key k db.messages

module _ (m : Message) (db : Db) where
  -- A message that is queued is stored and in the outbox; its row there is the earlier one, if it
  -- was queued before, and no other message is touched.
  pub queue_outbound_lem :
      (k : String)
      → (stored k (queue_outbound m db) ≡ (if m.id == k then some (message_row m) else stored k db))
        × (queued k (queue_outbound m db) ≡ (
            if is_some (queued k db)
            then queued k db
            else if m.id == k
            then some (record {
              message_id = m.id;
              chat_id = m.chat_id;
              body = m.body;
              created_at = m.timestamp;
            })
            else none))
  unfolding queue_outbound save_message message_row
  queue_outbound_lem k = (
    Table.find-upsert message_key k (message_row m) db.messages,
    Table.find-insert_ignore outbox_key k _ db.outbox,
  )

-- Marking one message as delivered takes it from the outbox and sets its two columns; of any other
-- message the row and the place in the outbox stay.
pub mark_delivered_lem :
    (j k : String) (db : Db)
    → (queued k (mark_delivered j db) ≡ (if j == k then none else queued k db))
      × (stored k (mark_delivered j db)
          ≡ (if j == k then Option.map set_delivered (stored k db) else stored k db))
unfolding mark_delivered
mark_delivered_lem j k db = (
  Table.find-delete outbox_key k j db.outbox,
  Table.find-update message_key j set_delivered (λ r. refl) k db.messages,
)

length-join_messages :
    (os : List OutboxRow) (db : Db)
    → All (HasMessage db) os
    → length (join_messages os db.messages) ≡ length os
unfolding join_messages
length-join_messages [] db h = refl
length-join_messages (o ∷ os) db h = ground (arith, length-join_messages os db h.1)

All-join_messages :
    (os : List OutboxRow) (db : Db)
    → All Decodes db.messages
    → All Decodes (join_messages os db.messages)
unfolding join_messages
All-join_messages [] db h = tt
All-join_messages (o ∷ os) db h = elim (Option-cases (stored o.message_id db)) [
  | inl e ↦ rw (e, All, join_messages) (All-join_messages os db h)
  | inr (r, e) ↦
      rw (e, All, join_messages)
        (Table.All-find message_key Decodes o.message_id db.messages h e, All-join_messages os db h)
]

select_all : (os : List OutboxRow) → select (in_outbox none) os ≡ os
unfolding in_outbox
select_all [] = refl
select_all (o ∷ os) = ap (◌∷◌ o) (select_all os)

length-pending_rows :
    (db : Db) → IsWellFormed db → length (pending_rows none db) ≡ pending_outbox_count db
unfolding pending_rows pending_outbox_count
length-pending_rows db w = rw (select_all db.outbox) (
    length-join_messages (sort_by by_created_at db.outbox) db
      (All-sort_by by_created_at (HasMessage db) db.outbox w.linked)
    ∙ length-sort_by by_created_at db.outbox)

-- On a well-formed database the pending messages can be read, and there are as many as the outbox
-- has rows: the join loses none.
pub get_pending_outbox-count :
    (db : Db)
    → IsWellFormed db
    → (ms : List Message) × (get_pending_outbox none db ≡ ok ms)
      × (length ms ≡ pending_outbox_count db)
unfolding get_pending_outbox
get_pending_outbox-count db w =
    let (ms, e, ds) =
      decode_all-AllDecoded (pending_rows none db)
        (unfold pending_rows in All-join_messages _ db w.decodes) in
    (ms, e, AllDecoded-length (pending_rows none db) ms ds ∙ length-pending_rows db w)

-- Delivery of a queued message takes exactly one row from the outbox.
pub mark_delivered-count :
    (k : String) (db : Db)
    → IsWellFormed db
    → is_some (queued k db) ≡ true
    → suc (pending_outbox_count (mark_delivered k db)) ≡ pending_outbox_count db
unfolding mark_delivered pending_outbox_count
mark_delivered-count k db w h = elim (Option-cases (queued k db)) [
  | inl e ↦ absurd (cc (e, h))
  | inr (r, e) ↦ Table.length-delete outbox_key k db.outbox r w.outbox_unique e
]
