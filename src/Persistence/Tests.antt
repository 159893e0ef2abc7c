-- ===== src/Persistence/Tests.antt =====
-- A database with one queued message, and instances of the theorems on the tables.
use serverless_xmpp.Base.{none, some, List, [], ◌∷◌, ◌++◌, ◌≡◌, refl, min, All, select, length}
use mathlib.Core.List.{Perm}
use serverless_xmpp.Base.Sorting.{IsSorted}
use serverless_xmpp.Base.Outcome.{ok}
use serverless_xmpp.Base.Table
use serverless_xmpp.Models.{Message}
use serverless_xmpp.Samples.{hello, chat}
use serverless_xmpp.Persistence.Rows.{
  MessageRow, OutboxRow, message_row, chat_row, stored_stanza, row_to_message-message_row,
}
use serverless_xmpp.Persistence.WellFormed.{IsWellFormed}
use serverless_xmpp.Persistence.History.{
  IsBefore, message_order, get_history_lem, history_rows-newest,
}
use serverless_xmpp.Persistence.Invariant.{outbound, delivered_mark, writes, writes-IsWellFormed}
use serverless_xmpp.Persistence.{
  Db, empty, get_history, in_history, history_rows, selected_rows, by_timestamp,
}

abbrev pub waiting : OutboxRow
waiting = record { message_id = "m1"; chat_id = "alice"; body = "hello"; created_at = "t1" }

abbrev pub one_queued : Db
one_queued = record empty {
  messages = message_row hello ∷ [];
  chats = chat_row chat ∷ [];
  outbox = waiting ∷ [];
}

pub one_queued-IsWellFormed : IsWellFormed one_queued
unfolding Table.find message_row chat_row
one_queued-IsWellFormed = record {
  messages_unique = (refl, tt);
  outbox_unique = (refl, tt);
  chats_unique = (refl, tt);
  presence_unique = tt;
  sync_unique = tt;
  decodes =
      ((record hello { raw_stanza = stored_stanza none }, row_to_message-message_row hello), tt);
  linked = (refl, tt);
}

writes-IsWellFormed_example :
    IsWellFormed (writes (outbound hello ∷ delivered_mark "m1" ∷ []) one_queued)
writes-IsWellFormed_example =
    writes-IsWellFormed (outbound hello ∷ delivered_mark "m1" ∷ []) one_queued
      one_queued-IsWellFormed

get_history_lem_example :
    (ms : List Message) × (get_history "alice" (some 50) none one_queued ≡ ok ms)
    × All (λ m. (m.chat_id ≡ "alice") × IsBefore none m) ms
    × IsSorted message_order ms
    × (length ms ≡ min 50 (length (select (in_history "alice" none) one_queued.messages)))
get_history_lem_example = get_history_lem "alice" none one_queued 50 one_queued-IsWellFormed

history_rows-newest_example :
    (older : List MessageRow) × (older ++ history_rows "alice" (some 1) none one_queued
      ≡ selected_rows "alice" none one_queued)
    × Perm
        (selected_rows "alice" none one_queued)
        (select (in_history "alice" none) one_queued.messages)
    × IsSorted by_timestamp (older ++ history_rows "alice" (some 1) none one_queued)
    × (length (history_rows "alice" (some 1) none one_queued)
        ≡ min 1 (length (selected_rows "alice" none one_queued)))
history_rows-newest_example = history_rows-newest "alice" none one_queued 1
