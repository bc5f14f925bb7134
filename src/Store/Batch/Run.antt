-- ===== src/Store/Batch/Run.antt =====
-- The loops of InsertBatch as functions of the database, where no call fails.
use native.Mathlib.Nat.{add_assoc}
use wachat.Prelude.{
  ℕ, ◌+◌, ◌≡◌, refl, ◌⊎◌, inl, inr, List, [], ◌∷◌, text_eq, arith, if◌then◌else◌, Bool-cases,
}
use wachat.Store.Schema.{
  Message, ChatRow, Db, Sqlite, begin_tx, commit_tx, prepare_insert, prepare_upsert, exec_insert,
  exec_upsert,
}
use wachat.Store.Exec.{Result, ok, Succeeds}
use wachat.Store.Messages.{insert_row, bool_to_int}
use wachat.Store.Messages.Insert.{IsErr}
use wachat.Store.Batch.{
  LastTs, is_skipped, note_ts, insert_all, advance_chat, upsert_all, insert_batch,
}

module _ (d : Sqlite) where
  unfoldable pub rows_after : List Message → Db → Db
  rows_after [] db = db
  rows_after (m ∷ ms) db = rows_after ms (if is_skipped m then db else (insert_row d m db).1)

  unfoldable pub created_by : List Message → Db → ℕ
  created_by [] db = 0
  created_by (m ∷ ms) db =
      let rest = created_by ms (insert_row d m db).1 in
      let skipped = created_by ms db in
      if is_skipped m then skipped else bool_to_int (insert_row d m db).0 + rest

unfoldable pub noted : List Message → List LastTs → List LastTs
noted [] seen = seen
noted (m ∷ ms) seen = noted ms (if is_skipped m then seen else note_ts m seen)

unfoldable pub advance_all : List LastTs → List ChatRow → List ChatRow
advance_all [] chats = chats
advance_all (e ∷ es) chats = advance_all es (advance_chat e.jid e.ts chats)

-- An action fails, or it has this outcome.
abbrev pub FailsOr {ℓ} : {A : Type ℓ} → Result A × Db → A × Db → Type ℓ
FailsOr r out = IsErr r.0 ⊎ (r ≡ (ok out.0, out.1))

module _ (d : Sqlite) where
  insert_all_run :
      (ms : List Message) (seen : List LastTs) (n : ℕ) (db : Db)
      → FailsOr
          (insert_all d ms seen n db)
          ((noted ms seen, n + created_by d ms db), rows_after d ms db)
  unfolding insert_all noted created_by rows_after
  insert_all_run [] seen n db = inr (ground arith)
  insert_all_run (m ∷ ms) seen n db = elim (Bool-cases (is_skipped m)) [
    | inl e ↦ rw e (insert_all_run ms seen n db)
    | inr e ↦ elim (Bool-cases (d.succeeds (exec_insert m.wa_id))) [
      | inl s ↦
          let (created, db') = insert_row d m db in
          let rest = insert_all_run ms (note_ts m seen) (n + bool_to_int created) db' in
          rw (e, s) (rw (add_assoc n (bool_to_int created) (created_by d ms db')) at rest)
      | inr f ↦ rw (e, f) (inl tt)
    ]
  ]

  upsert_all_run :
      (es : List LastTs) (db : Db)
      → FailsOr (upsert_all d es db) (tt, record db { chats = advance_all es db.chats })
  unfolding upsert_all advance_all
  upsert_all_run [] db = inr refl
  upsert_all_run (e ∷ es) db = elim (Bool-cases (d.succeeds (exec_upsert e.jid))) [
    | inl s ↦ rw s (upsert_all_run es (record db { chats = advance_chat e.jid e.ts db.chats }))
    | inr f ↦ rw f (inl tt)
  ]

  -- What a successful InsertBatch leaves.
  unfoldable pub after_batch : List Message → Db → Db
  after_batch ms db =
      let rows = rows_after d ms db in record rows { chats = advance_all (noted ms []) rows.chats }

  -- Fails with the database as it was, or does this.
  pub insert_batch_all_or_nothing :
      (ms : List Message) (db : Db)
      → (IsErr (insert_batch d ms db).0 × ((insert_batch d ms db).1 ≡ db))
        ⊎ (insert_batch d ms db ≡ (ok (created_by d ms db), after_batch ms db))
  unfolding insert_batch after_batch created_by rows_after noted advance_all
  insert_batch_all_or_nothing [] db = inr refl
  insert_batch_all_or_nothing (m ∷ ms) db = ground (
    arith,
    insert_all_run (m ∷ ms) [] 0 db,
    upsert_all_run (noted (m ∷ ms) []) (rows_after d (m ∷ ms) db),
  )

module _ (d : Sqlite) (s : Succeeds d) where
  insert_all_succeeds :
      (ms : List Message) (seen : List LastTs) (n : ℕ) (db : Db)
      → insert_all d ms seen n db ≡ (ok (noted ms seen, n + created_by d ms db), rows_after d ms db)
  unfolding insert_all noted created_by rows_after
  insert_all_succeeds [] seen n db = ground arith
  insert_all_succeeds (m ∷ ms) seen n db = elim (Bool-cases (is_skipped m)) [
    | inl e ↦ rw e (insert_all_succeeds ms seen n db)
    | inr e ↦
        let (created, db') = insert_row d m db in
        let rest = insert_all_succeeds ms (note_ts m seen) (n + bool_to_int created) db' in
        rw (e, s (exec_insert m.wa_id))
          (rw (add_assoc n (bool_to_int created) (created_by d ms db')) at rest)
  ]

  upsert_all_succeeds :
      (es : List LastTs) (db : Db)
      → upsert_all d es db ≡ (ok tt, record db { chats = advance_all es db.chats })
  unfolding upsert_all advance_all
  upsert_all_succeeds [] db = refl
  upsert_all_succeeds (e ∷ es) db =
      rw (s (exec_upsert e.jid))
        (upsert_all_succeeds es (record db { chats = advance_chat e.jid e.ts db.chats }))

  pub insert_batch_succeeds :
      (ms : List Message) (db : Db)
      → insert_batch d ms db ≡ (ok (created_by d ms db), after_batch d ms db)
  unfolding insert_batch after_batch created_by rows_after noted advance_all
  insert_batch_succeeds [] db = refl
  insert_batch_succeeds (m ∷ ms) db = ground (
    arith,
    s begin_tx,
    s prepare_insert,
    s prepare_upsert,
    s commit_tx,
    insert_all_succeeds (m ∷ ms) [] 0 db,
    upsert_all_succeeds (noted (m ∷ ms) []) (rows_after d (m ∷ ms) db),
  )
