-- ===== src/Persistence/History.antt =====
-- What `get_history` of src/xmpp_p2p_chat/connection_service/persistence.py returns.
use mathlib.Core.List.{Perm}
use serverless_xmpp.Base.{
  none, All-select, All-select_of, eq_iff, All-drop, false, ◌∙◌, ℕ, suc, ◌-◌, min, String, Bool,
  true, Option, some, List, [], ◌∷◌, ◌++◌, ◌≡◌, refl, ap, arith, text_leb, text_leb_total,
  text_leb_trans, length, take, drop, select, All, take-append-drop, reverse-take-reverse,
  length-drop,
}
use serverless_xmpp.Base.Sorting.{
  IsSorted, sort_by-perm, sort_by-IsSorted, All-sort_by, length-sort_by, IsSorted-drop,
}
use serverless_xmpp.Base.Outcome.{ok}
use serverless_xmpp.Models.{Datetime, Message}
use serverless_xmpp.Persistence.Rows.{MessageRow, row_to_message}
use serverless_xmpp.Persistence.WellFormed.{Decodes, IsWellFormed}
use serverless_xmpp.Persistence.{
  get_history, Db, in_history, by_timestamp, selected_rows, history_rows, decode_all,
}

-- What conversion keeps.
pub record Decoded (r : MessageRow) (m : Message) : Type 0 where
  pub id : m.id ≡ r.id
  pub chat_id : m.chat_id ≡ r.chat_id
  pub timestamp : m.timestamp ≡ r.timestamp
  pub body : m.body ≡ r.body

pub row_to_message-Decoded : (r : MessageRow) (m : Message) → row_to_message r ≡ ok m → Decoded r m
unfolding row_to_message
row_to_message-Decoded r m h = ground arith

abbrev pub AllDecoded : List MessageRow → List Message → Type 0
AllDecoded [] [] = Unit
AllDecoded [] (m ∷ ms) = ⊥
AllDecoded (r ∷ rs) [] = ⊥
AllDecoded (r ∷ rs) (m ∷ ms) = Decoded r m × AllDecoded rs ms

-- Rows that convert one by one convert together.
pub decode_all-AllDecoded :
    (rs : List MessageRow)
    → All Decodes rs
    → (ms : List Message) × (decode_all row_to_message rs ≡ ok ms) × AllDecoded rs ms
unfolding decode_all
decode_all-AllDecoded [] h = ([], refl, tt)
decode_all-AllDecoded (r ∷ rs) h =
    let (m, e) = h.0 in
    let (ms, es, ds) = decode_all-AllDecoded rs h.1 in
    (m ∷ ms, rw (e, es) refl, (row_to_message-Decoded r m e, ds))

pub AllDecoded-length :
    (rs : List MessageRow) (ms : List Message) → AllDecoded rs ms → length ms ≡ length rs
AllDecoded-length [] [] h = refl
AllDecoded-length [] (m ∷ ms) h = absurd h
AllDecoded-length (r ∷ rs) [] h = absurd h
AllDecoded-length (r ∷ rs) (m ∷ ms) h = ap suc (AllDecoded-length rs ms h.1)

-- Oldest first, by the text of the time.
abbrev pub message_order : Message → Message → Bool
message_order m n = text_leb m.timestamp n.timestamp

AllDecoded-above :
    (r : MessageRow) (m : Message) (rs : List MessageRow) (ms : List Message)
    → Decoded r m
    → AllDecoded rs ms
    → All (λ s. by_timestamp r s ≡ true) rs
    → All (λ n. message_order m n ≡ true) ms
AllDecoded-above r m [] [] d ds h = tt
AllDecoded-above r m [] (n ∷ ms) d ds h = absurd ds
AllDecoded-above r m (s ∷ rs) [] d ds h = absurd ds
AllDecoded-above r m (s ∷ rs) (n ∷ ms) d ds h =
    (rw (d.timestamp, ds.0.timestamp) h.0, AllDecoded-above r m rs ms d ds.1 h.1)

AllDecoded-IsSorted :
    (rs : List MessageRow) (ms : List Message)
    → AllDecoded rs ms
    → IsSorted by_timestamp rs
    → IsSorted message_order ms
AllDecoded-IsSorted [] [] ds h = tt
AllDecoded-IsSorted [] (n ∷ ms) ds h = absurd ds
AllDecoded-IsSorted (s ∷ rs) [] ds h = absurd ds
AllDecoded-IsSorted (s ∷ rs) (n ∷ ms) ds h =
    (AllDecoded-above s n rs ms ds.0 ds.1 h.0, AllDecoded-IsSorted rs ms ds.1 h.1)

AllDecoded-All :
    (P : MessageRow → Type 0) (Q : Message → Type 0) (rs : List MessageRow) (ms : List Message)
    → ((r : MessageRow) (m : Message) → Decoded r m → P r → Q m)
    → AllDecoded rs ms
    → All P rs
    → All Q ms
AllDecoded-All P Q [] [] f ds h = tt
AllDecoded-All P Q [] (n ∷ ms) f ds h = absurd ds
AllDecoded-All P Q (s ∷ rs) [] f ds h = absurd ds
AllDecoded-All P Q (s ∷ rs) (n ∷ ms) f ds h = (f s n ds.0 h.0, AllDecoded-All P Q rs ms f ds.1 h.1)

module _ (chat_id : String) (before : Option Datetime) (db : Db) where
  selected_rows-IsSorted : IsSorted by_timestamp (selected_rows chat_id before db)
  unfolding selected_rows
  selected_rows-IsSorted =
      sort_by-IsSorted by_timestamp (λ r s. text_leb_total r.timestamp s.timestamp)
        (λ r s t. text_leb_trans r.timestamp s.timestamp t.timestamp)
        (select (in_history chat_id before) db.messages)

  history_rows-eq-drop :
      (n : ℕ)
      → history_rows chat_id (some n) before db
        ≡ drop (length (selected_rows chat_id before db) - n) (selected_rows chat_id before db)
  unfolding history_rows
  history_rows-eq-drop n = reverse-take-reverse n (selected_rows chat_id before db)

  -- A page of at most `n` rows is the end of the chat's rows in the order of time: the rows that it
  -- leaves out come before all of it, those rows together are what the query matches, and the page
  -- is full unless there are fewer.
  pub history_rows-newest :
      (n : ℕ)
      → (older : List MessageRow) × (older ++ history_rows chat_id (some n) before db
          ≡ selected_rows chat_id before db)
        × Perm (selected_rows chat_id before db) (select (in_history chat_id before) db.messages)
        × IsSorted by_timestamp (older ++ history_rows chat_id (some n) before db)
        × (length (history_rows chat_id (some n) before db)
            ≡ min n (length (selected_rows chat_id before db)))
  history_rows-newest n =
      let rows = selected_rows chat_id before db in
      let k : ℕ = length rows - n in
      let joined : take k rows ++ history_rows chat_id (some n) before db ≡ rows =
        rw (history_rows-eq-drop n) (take-append-drop k rows) in
      (
        take k rows,
        joined,
        unfold selected_rows in
            sort_by-perm by_timestamp (select (in_history chat_id before) db.messages),
        rw joined selected_rows-IsSorted,
        rw (history_rows-eq-drop n) (omega (arith, length-drop k rows)),
      )

abbrev pub IsBefore : Option Datetime → Message → Type 0
IsBefore none m = Unit
IsBefore (some before) m = text_leb before m.timestamp ≡ false

row-in_history :
    (chat_id : String) (before : Option Datetime) (r : MessageRow) (m : Message)
    → Decoded r m
    → in_history chat_id before r ≡ true
    → (m.chat_id ≡ chat_id) × IsBefore before m
unfolding in_history
row-in_history chat_id none r m d h = (d.chat_id ∙ (eq_iff r.chat_id chat_id).0 h, tt)
row-in_history chat_id (some before) r m d h =
    (ground (arith, eq_iff r.chat_id chat_id, d.chat_id), rw d.timestamp (ground arith))

module _ (chat_id : String) (before : Option Datetime) (db : Db) where
  rows-in_history :
      (n : ℕ)
      → All (λ r. in_history chat_id before r ≡ true) (history_rows chat_id (some n) before db)
  rows-in_history n = rw (history_rows-eq-drop chat_id before db n) (
      All-drop (λ r. in_history chat_id before r ≡ true) _ (selected_rows chat_id before db)
        (unfold selected_rows in
          All-sort_by by_timestamp (λ r. in_history chat_id before r ≡ true)
            (select (in_history chat_id before) db.messages)
            (All-select (in_history chat_id before) db.messages)))

  rows-Decodes : (n : ℕ) → IsWellFormed db → All Decodes (history_rows chat_id (some n) before db)
  rows-Decodes n w = rw (history_rows-eq-drop chat_id before db n) (
      All-drop Decodes _ (selected_rows chat_id before db) (
        unfold selected_rows in
        All-sort_by by_timestamp Decodes (select (in_history chat_id before) db.messages)
          (All-select_of Decodes (in_history chat_id before) db.messages w.decodes)))

  rows-IsSorted : (n : ℕ) → IsSorted by_timestamp (history_rows chat_id (some n) before db)
  rows-IsSorted n =
      rw (history_rows-eq-drop chat_id before db n)
        (IsSorted-drop by_timestamp _ _ (selected_rows-IsSorted chat_id before db))

  length-selected_rows :
      length (selected_rows chat_id before db)
      ≡ length (select (in_history chat_id before) db.messages)
  unfolding selected_rows
  length-selected_rows =
      length-sort_by by_timestamp (select (in_history chat_id before) db.messages)

  -- On a well-formed database `get_history` raises nothing. Its messages are of the chat and before
  -- the given time, they stand in the order of time, and there are as many as the query matches,
  -- `n` at most.
  pub get_history_lem :
      (n : ℕ)
      → IsWellFormed db
      → (ms : List Message) × (get_history chat_id (some n) before db ≡ ok ms)
        × All (λ m. (m.chat_id ≡ chat_id) × IsBefore before m) ms
        × IsSorted message_order ms
        × (length ms ≡ min n (length (select (in_history chat_id before) db.messages)))
  unfolding get_history
  get_history_lem n w =
      let rows = history_rows chat_id (some n) before db in
      let (ms, e, ds) = decode_all-AllDecoded rows (rows-Decodes n w) in
      (
        ms,
        e,
        AllDecoded-All (λ r. in_history chat_id before r ≡ true)
            (λ m. (m.chat_id ≡ chat_id) × IsBefore before m) rows ms (row-in_history chat_id before)
            ds (rows-in_history n),
        AllDecoded-IsSorted rows ms ds (rows-IsSorted n),
        omega (
          arith,
          AllDecoded-length rows ms ds,
          (history_rows-newest chat_id before db n).4,
          length-selected_rows,
        ),
      )
