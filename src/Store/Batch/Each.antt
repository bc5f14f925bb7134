-- ===== src/Store/Batch/Each.antt =====
-- InsertBatch against one Insert for each message of the batch.
use wachat.Prelude.{
  ℕ, ◌+◌, ◌≡◌, refl, sym, ap, ◌∙◌, inl, inr, String, true, false, List, [], ◌∷◌, ◌==◌, text_eq,
  arith, if◌then◌else◌, Bool-cases, text_iff,
}
use wachat.Store.Schema.{
  Message, ChatRow, Db, Sqlite, begin_tx, commit_tx, rows_affected, exec_insert, exec_upsert,
  find_chat,
}
use wachat.Store.Exec.{Exec, ok, pure, Succeeds, ◌>>=◌}
use wachat.Store.WellFormed.{WellFormed}
use wachat.Store.Messages.{insert, insert_row, touch_chat, bool_to_int}
use wachat.Store.Messages.Insert.{
  after_insert, find_chat-touch_chat, after_insert-WellFormed, chats-insert_row,
}
use wachat.Store.Batch.{is_skipped, insert_batch}
use wachat.Store.Batch.Run.{
  rows_after, created_by, noted, advance_all, after_batch, insert_batch_succeeds,
}
use wachat.Store.Batch.Latest.{
  only_if, latest_in, latest_of, advanced, advanced_twice, latest_in-noted, find_chat-advance_all,
}

-- One Insert for each message that InsertBatch does not skip, and the number of rows created.
unfoldable pub insert_each : Sqlite → List Message → Exec ℕ
insert_each d [] = pure 0
insert_each d (m ∷ ms) =
    let rest = insert_each d ms in
    let persist : Exec ℕ = do
      is_new ← insert d m false
      created ← rest
      pure (bool_to_int is_new + created)
    in if is_skipped m then rest else persist

unfoldable touch_each : List Message → List ChatRow → List ChatRow
touch_each [] chats = chats
touch_each (m ∷ ms) chats =
    touch_each ms (if is_skipped m then chats else touch_chat m.chat_jid m.ts 0 chats)

abbrev with_chats : List ChatRow → Db → Db
with_chats cs db = record db { chats = cs }

find_chat-touch_one :
    (k j : String) (ts : ℕ) (chats : List ChatRow)
    → find_chat j (touch_chat k ts 0 chats) ≡ advanced j (only_if (k == j) ts) (find_chat j chats)
find_chat-touch_one k j ts chats = ground (arith, find_chat-touch_chat k j ts 0 chats, text_iff k j)

find_chat-touch_each :
    (j : String) (ms : List Message) (chats : List ChatRow)
    → find_chat j (touch_each ms chats) ≡ advanced j (latest_of j ms) (find_chat j chats)
unfolding touch_each latest_of
find_chat-touch_each j [] chats = refl
find_chat-touch_each j (m ∷ ms) chats = elim (Bool-cases (is_skipped m)) [
  | inl skipped ↦ rw skipped (find_chat-touch_each j ms chats)
  | inr kept ↦
      rw
        (
          kept,
          find_chat-touch_each j ms (touch_chat m.chat_jid m.ts 0 chats),
          find_chat-touch_one m.chat_jid j m.ts chats,
        )
        (advanced_twice j (only_if (m.chat_jid == j) m.ts) (latest_of j ms) (find_chat j chats))
]

-- The chat rows that the two leave are the same for every lookup.
find_chat-each_batch :
    (j : String) (ms : List Message) (chats : List ChatRow)
    → find_chat j (touch_each ms chats) ≡ find_chat j (advance_all (noted ms []) chats)
unfolding latest_in
find_chat-each_batch j ms chats =
    find_chat-touch_each j ms chats
    ∙ ap (λ l. advanced j l (find_chat j chats)) (sym (latest_in-noted j ms []))
    ∙ sym (find_chat-advance_all j (noted ms []) chats)

module _ (d : Sqlite) where
  unfoldable pub after_each : List Message → Db → Db
  after_each [] db = db
  after_each (m ∷ ms) db = after_each ms (if is_skipped m then db else after_insert d m false db)

  pub after_each-WellFormed :
      (ms : List Message) (db : Db) → WellFormed db → WellFormed (after_each ms db)
  unfolding after_each
  after_each-WellFormed [] db w = w
  after_each-WellFormed (m ∷ ms) db w = elim (Bool-cases (is_skipped m)) [
    | inl skipped ↦ rw skipped (after_each-WellFormed ms db w)
    | inr kept ↦ rw kept (
        after_each-WellFormed ms (after_insert d m false db)
          (after_insert-WellFormed d m db w false))
  ]

  -- The rows that one Insert adds do not depend on the chats.
  insert_row-with_chats :
      (m : Message) (cs : List ChatRow) (db : Db)
      → insert_row d m (with_chats cs db)
        ≡ ((insert_row d m db).0, with_chats cs (insert_row d m db).1)
  unfolding insert_row
  insert_row-with_chats m cs db = ground arith

  after_insert-with_chats :
      (m : Message) (cs : List ChatRow) (db : Db)
      → after_insert d m false (with_chats cs db)
        ≡ with_chats (touch_chat m.chat_jid m.ts 0 cs) (insert_row d m db).1
  unfolding after_insert
  after_insert-with_chats m cs db = rw (insert_row-with_chats m cs db) (ground arith)

  pub rows_after-none : (db : Db) → rows_after d [] db ≡ db
  unfolding rows_after
  rows_after-none db = refl

  pub rows_after-skipped :
      (m : Message) (ms : List Message) (db : Db)
      → is_skipped m ≡ true
      → rows_after d (m ∷ ms) db ≡ rows_after d ms db
  unfolding rows_after
  rows_after-skipped m ms db e = rw e refl

  pub rows_after-kept :
      (m : Message) (ms : List Message) (db : Db)
      → is_skipped m ≡ false
      → rows_after d (m ∷ ms) db ≡ rows_after d ms (insert_row d m db).1
  unfolding rows_after
  rows_after-kept m ms db e = rw e refl

  after_each-with_chats :
      (ms : List Message) (cs : List ChatRow) (db : Db)
      → after_each ms (with_chats cs db) ≡ with_chats (touch_each ms cs) (rows_after d ms db)
  unfolding after_each touch_each
  after_each-with_chats [] cs db = rw (rows_after-none db) refl
  after_each-with_chats (m ∷ ms) cs db = elim (Bool-cases (is_skipped m)) [
    | inl skipped ↦
        rw (skipped, rows_after-skipped m ms db skipped) (after_each-with_chats ms cs db)
    | inr kept ↦
        rw (kept, rows_after-kept m ms db kept, after_insert-with_chats m cs db)
          (after_each-with_chats ms (touch_chat m.chat_jid m.ts 0 cs) (insert_row d m db).1)
  ]

  created_by-with_chats :
      (ms : List Message) (cs : List ChatRow) (db : Db)
      → created_by d ms (with_chats cs db) ≡ created_by d ms db
  unfolding created_by
  created_by-with_chats [] cs db = refl
  created_by-with_chats (m ∷ ms) cs db = elim (Bool-cases (is_skipped m)) [
    | inl skipped ↦ rw skipped (created_by-with_chats ms cs db)
    | inr kept ↦
        rw (kept, insert_row-with_chats m cs db)
          (ap (λ n. bool_to_int (insert_row d m db).0 + n)
            (created_by-with_chats ms cs (insert_row d m db).1))
  ]

  after_insert-chats :
      (m : Message) (db : Db)
      → after_insert d m false db
        ≡ with_chats (touch_chat m.chat_jid m.ts 0 db.chats) (insert_row d m db).1
  after_insert-chats m db = after_insert-with_chats m db.chats db

module _ (d : Sqlite) (s : Succeeds d) where
  insert_kept :
      (m : Message) (db : Db)
      → is_skipped m ≡ false
      → insert d m false db ≡ (ok (insert_row d m db).0, after_insert d m false db)
  unfolding insert after_insert
  insert_kept m db kept = ground (
    arith,
    kept,
    s begin_tx,
    s (exec_insert m.wa_id),
    s rows_affected,
    s (exec_upsert m.chat_jid),
    s commit_tx,
    chats-insert_row d m false db,
  )

  insert_each_run :
      (ms : List Message) (db : Db)
      → insert_each d ms db ≡ (ok (created_by d ms db), after_each d ms db)
  unfolding insert_each created_by after_each
  insert_each_run [] db = refl
  insert_each_run (m ∷ ms) db = elim (Bool-cases (is_skipped m)) [
    | inl skipped ↦ rw skipped (insert_each_run ms db)
    | inr kept ↦
        let same : created_by d ms (after_insert d m false db)
            ≡ created_by d ms (insert_row d m db).1 =
          ap (created_by d ms) (after_insert-chats d m db)
          ∙ created_by-with_chats d ms (touch_chat m.chat_jid m.ts 0 db.chats)
              (insert_row d m db).1 in
        rw (kept, insert_kept m db kept, insert_each_run ms (after_insert d m false db), same) refl
  ]

chats-rows_after :
    (d : Sqlite) (ms : List Message) (db : Db) → (rows_after d ms db).chats ≡ db.chats
chats-rows_after d [] db = ap (λ x. x.chats) (rows_after-none d db)
chats-rows_after d (m ∷ ms) db = elim (Bool-cases (is_skipped m)) [
  | inl skipped ↦ rw (rows_after-skipped d m ms db skipped) (chats-rows_after d ms db)
  | inr kept ↦
      rw (rows_after-kept d m ms db kept)
        (chats-rows_after d ms (insert_row d m db).1 ∙ chats-insert_row d m false db)
]

-- What a client reads of the two databases is the same.
abbrev pub IsSameStore : Db → Db → Type 0
IsSameStore a b =
    (a.messages ≡ b.messages)
    × (a.messages_fts ≡ b.messages_fts)
    × ((j : String) → find_chat j a.chats ≡ find_chat j b.chats)

pub after_each_batch :
    (d : Sqlite) (ms : List Message) (db : Db)
    → IsSameStore (after_each d ms db) (after_batch d ms db)
unfolding after_batch
after_each_batch d ms db =
    rw (after_each-with_chats d ms db.chats db)
      (refl, refl, λ j. rw (chats-rows_after d ms db) (find_chat-each_batch j ms db.chats))

-- With a driver that works, InsertBatch does what one Insert does for each message that has an id
-- and a chat, one after the other and without an unread count: it reports as many rows created, and
-- leaves the same messages, the same search index and, under every chat id, the same chat row.
pub insert_batch-eq-insert_each :
    (d : Sqlite) (ms : List Message) (db : Db)
    → Succeeds d
    → ((insert_batch d ms db).0 ≡ (insert_each d ms db).0)
      × IsSameStore (insert_each d ms db).1 (insert_batch d ms db).1
insert_batch-eq-insert_each d ms db s =
    rw (insert_batch_succeeds d s ms db, insert_each_run d s ms db) (refl, after_each_batch d ms db)
