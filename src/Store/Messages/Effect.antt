-- ===== src/Store/Messages/Effect.antt =====
-- What one Insert adds: a row that reads back as it was given, and one unread message at most.
use wachat.Prelude.{
  ℕ, ◌+◌, String, ◌≡◌, ◌≢◌, refl, sym, ◌∙◌, ap, subst, Bool, true, false, inl, inr, ◌&&◌, not,
  Option, none, some, any, find?, ◌==◌, text_eq, nat_eq, text_iff, beq_self, arith, if◌then◌else◌,
  max,
}
use wachat.Prelude.Tables.{at_key}
use wachat.Store.Schema.{
  Message, MessageRow, Db, Sqlite, begin_tx, commit_tx, rows_affected, exec_insert, exec_upsert,
  ids, find_message, find_chat, text_or_empty,
}
use wachat.Store.Exec.{ok, Succeeds}
use wachat.Store.Messages.{
  insert, insert_row, to_row, unread_delta, status_or_sent, nullable_string, bool_to_int,
}
use wachat.Store.Messages.Insert.{
  after_insert, insert_all_or_nothing, find_chat-touch_chat, chats-insert_row,
}
use wachat.Store.Paging.{scan_message}

-- The chat list's columns, for a chat that may have no row yet.
abbrev pub unread_of : String → Db → ℕ
unread_of j db = elim (find_chat j db.chats) [ none ↦ 0 | some c ↦ c.unread ]

abbrev pub time_or_zero : Option ℕ → ℕ
time_or_zero none = 0
time_or_zero (some t) = t

abbrev pub last_ts_of : String → Db → ℕ
last_ts_of j db = elim (find_chat j db.chats) [ none ↦ 0 | some c ↦ time_or_zero c.last_ts ]

text_or_empty-nullable : (s : String) → text_or_empty (nullable_string s) ≡ s
unfolding nullable_string
text_or_empty-nullable s = ground (arith, text_iff s "")

bool_to_int-ne : (b : Bool) → not (bool_to_int b == 0) ≡ b
unfolding bool_to_int
bool_to_int-ne true = refl
bool_to_int-ne false = refl

-- What is written is what is read: only the rowid and an empty status are filled in.
pub scan_message-to_row :
    (i : ℕ) (m : Message)
    → scan_message (to_row i m)
      ≡ record m { id = (to_row i m).id; status = status_or_sent m.status }
unfolding scan_message to_row
scan_message-to_row i m = simp (text_or_empty-nullable, bool_to_int-ne)

module _ (d : Sqlite) (s : Succeeds d) (m : Message) (named : m.wa_id ≢ "")
    (placed : m.chat_jid ≢ "") (bump_unread : Bool) (db : Db) where
  -- With a working driver Insert succeeds.
  pub insert_succeeds :
      insert d m bump_unread db ≡ (ok (insert_row d m db).0, after_insert d m bump_unread db)
  unfolding insert after_insert
  insert_succeeds = ground (
    arith,
    text_iff m.wa_id "",
    text_iff m.chat_jid "",
    s begin_tx,
    s (exec_insert m.wa_id),
    s rows_affected,
    s (exec_upsert m.chat_jid),
    s commit_tx,
    chats-insert_row d m bump_unread db,
  )

module _ (d : Sqlite) (m : Message) (bump_unread : Bool) (db : Db) where
  messages-after_insert :
      (after_insert d m bump_unread db).messages ≡ (insert_row d m db).1.messages
  unfolding after_insert
  messages-after_insert = refl

  fts-after_insert :
      (after_insert d m bump_unread db).messages_fts ≡ (insert_row d m db).1.messages_fts
  unfolding after_insert
  fts-after_insert = refl

module _ (d : Sqlite) (m : Message) (bump_unread : Bool) (db : Db) (j : String) where
  unread-after_insert :
      unread_of j (after_insert d m bump_unread db)
      ≡ unread_of j db + (if m.chat_jid == j && (insert_row d m db).0 && bump_unread then 1 else 0)
  unfolding after_insert
  unread-after_insert = ground (
    arith,
    find_chat-touch_chat m.chat_jid j m.ts (unread_delta (insert_row d m db).0 bump_unread)
        db.chats,
  )

  last_ts-after_insert :
      last_ts_of j (after_insert d m bump_unread db)
      ≡ (if m.chat_jid == j then max (last_ts_of j db) m.ts else last_ts_of j db)
  unfolding after_insert
  last_ts-after_insert = ground (
    arith,
    find_chat-touch_chat m.chat_jid j m.ts (unread_delta (insert_row d m db).0 bump_unread)
        db.chats,
  )

-- A message with this id is stored.
abbrev pub is_stored : String → Db → Bool
is_stored w db = any (at_key (λ r. r.wa_id) w) db.messages

module _ (d : Sqlite) (m : Message) (db : Db) where
  is_stored-insert_row : is_stored m.wa_id (insert_row d m db).1 ≡ true
  unfolding insert_row to_row any
  is_stored-insert_row = ground (arith, text_iff m.wa_id m.wa_id)

  insert_row_stored : is_stored m.wa_id db ≡ true → insert_row d m db ≡ (false, db)
  unfolding insert_row
  insert_row_stored h = rw h

created : (d : Sqlite) (m : Message) (db : Db) → (insert_row d m db).0 ≡ not (is_stored m.wa_id db)
unfolding insert_row
created d m db = ground arith

find_message-insert_row :
    (d : Sqlite) (m : Message) (db : Db)
    → is_stored m.wa_id db ≡ false
    → find_message m.wa_id (insert_row d m db).1.messages
      ≡ some (to_row (d.next_id (ids db.messages)) m)
unfolding insert_row find? to_row
find_message-insert_row d m db fresh = rw (fresh, beq_self m.wa_id)

is_stored-insert :
    (d : Sqlite) (m : Message) (bump_unread : Bool) (db : Db) {created : Bool} {db1 : Db}
    → insert d m bump_unread db ≡ (ok created, db1)
    → is_stored m.wa_id db1 ≡ true
unfolding after_insert
is_stored-insert d m bump_unread db {created} {db1} done =
    elim (insert_all_or_nothing d m bump_unread db) [
      | inl (failed, same) ↦ absurd (rw done at failed)
      | inr eq ↦
          subst (λ x. is_stored m.wa_id x ≡ true) (ap (λ r. r.1) (sym eq ∙ done))
            (is_stored-insert_row d m db)
    ]

redelivered :
    (d : Sqlite) (m : Message) (bump_unread : Bool) (db : Db)
    → insert_row d m db ≡ (false, db)
    → (ok (insert_row d m db).0 ≡ ok false)
      × ((after_insert d m bump_unread db).messages ≡ db.messages)
      × ((after_insert d m bump_unread db).messages_fts ≡ db.messages_fts)
      × ((j : String) → unread_of j (after_insert d m bump_unread db) ≡ unread_of j db)
redelivered d m bump_unread db e = (
  rw e,
  messages-after_insert d m bump_unread db ∙ ap (λ r. r.1.messages) e,
  fts-after_insert d m bump_unread db ∙ ap (λ r. r.1.messages_fts) e,
  λ j. rw (unread-after_insert d m bump_unread db j, e) (ground arith),
)

-- A redelivery: once a message with an id is inserted, a later Insert, with a driver that works, of
-- any message with the same id reports that nothing was created, and leaves the messages, the
-- search index and every chat's unread count.
pub insert_redelivered :
    (d : Sqlite) (m : Message) (bump_unread : Bool) (db : Db) {created : Bool} {db1 : Db}
    → insert d m bump_unread db ≡ (ok created, db1)
    → (d' : Sqlite) → Succeeds d'
    → (m' : Message) → m'.wa_id ≡ m.wa_id
    → m.wa_id ≢ ""
    → m'.chat_jid ≢ ""
    → (bump' : Bool)
    → ((insert d' m' bump' db1).0 ≡ ok false)
      × ((insert d' m' bump' db1).1.messages ≡ db1.messages)
      × ((insert d' m' bump' db1).1.messages_fts ≡ db1.messages_fts)
      × ((j : String) → unread_of j (insert d' m' bump' db1).1 ≡ unread_of j db1)
insert_redelivered d m bump_unread db {created} {db1} done d' s m' same named placed bump' =
    let stored : is_stored m'.wa_id db1 ≡ true =
      rw same (is_stored-insert d m bump_unread db done) in
    rw (insert_succeeds d' s m' (rw same named) placed bump' db1)
      (redelivered d' m' bump' db1 (insert_row_stored d' m' db1 stored))

module _ (d : Sqlite) (s : Succeeds d) (m : Message) (named : m.wa_id ≢ "")
    (placed : m.chat_jid ≢ "") (bump_unread : Bool) (db : Db) where
  -- With a working driver, Insert reports a creation exactly when the id is new. It adds one unread
  -- message to its chat exactly when the row is new and the caller asked for it, advances that
  -- chat's `last_ts` to the message's time unless it is later already, and does neither to any
  -- other chat.
  pub insert_counts :
      ((insert d m bump_unread db).0 ≡ ok (not (is_stored m.wa_id db)))
      × ((j : String)
          → unread_of j (insert d m bump_unread db).1
            ≡ unread_of j db
              + (if m.chat_jid == j && not (is_stored m.wa_id db) && bump_unread then 1 else 0))
      × ((j : String)
          → last_ts_of j (insert d m bump_unread db).1
            ≡ (if m.chat_jid == j then max (last_ts_of j db) m.ts else last_ts_of j db))
  insert_counts = rw (insert_succeeds d s m named placed bump_unread db) (
    ap ok (created d m db),
    λ j. rw (unread-after_insert d m bump_unread db j, created d m db) refl,
    last_ts-after_insert d m bump_unread db,
  )

  pub insert-reads_back :
      is_stored m.wa_id db ≡ false
      → (row : MessageRow) × (find_message m.wa_id (insert d m bump_unread db).1.messages
          ≡ some row)
        × (scan_message row ≡ record m { id = row.id; status = status_or_sent m.status })
  insert-reads_back fresh =
      let row = to_row (d.next_id (ids db.messages)) m in
      (
        row,
        ap (λ r. find_message m.wa_id r.1.messages)
              (insert_succeeds d s m named placed bump_unread db)
            ∙ ap (find_message m.wa_id) (messages-after_insert d m bump_unread db)
            ∙ find_message-insert_row d m db fresh,
        scan_message-to_row (d.next_id (ids db.messages)) m,
      )
