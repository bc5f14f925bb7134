-- ===== src/Store/Migrations/Open.antt =====
-- Open on a database of any version, where no call fails.
use wachat.Prelude.{
  ℕ, suc, ◌≡◌, refl, Bool, false, inl, inr, List, [], ◌∷◌, ◌++◌, map, ◌==◌, text_eq, any, arith,
  Bool-cases, length, nat_eq,
}
use wachat.Store.Schema.{MessageRow, ChatRow, Db, Sqlite, query, exec, table_info}
use wachat.Store.Exec.{ok, Succeeds}
use wachat.Store.Messages.{fts_row}
use wachat.Store.Migrations.{
  Column, has_column, status_columns, reply_columns, link_columns, starred_columns, state_columns,
  message_columns, chat_columns, create_if_missing, apply_schema, column_set, message_column_set,
  alter_messages, alter_chats, migrate_add_status_column, migrate_add_reply_edit_revoke_columns,
  migrate_add_chat_state_columns, migrate_add_link_preview_columns, migrate_add_starred_column,
  missing, backfill_fts_if_needed, open_store,
}
use wachat.Store.Migrations.Columns.{
  scan_columns_succeeds, scan_for_succeeds, added, add_columns_succeeds,
}

unfoldable pub created : Db → Db
created db = record db {
  message_columns = create_if_missing message_columns db.message_columns;
  chat_columns = create_if_missing chat_columns db.chat_columns;
}

abbrev pub add_to_messages : List (Column MessageRow) → Db → Db
add_to_messages cs db = added alter_messages db.message_columns cs db

abbrev pub add_to_chats : List (Column ChatRow) → Db → Db
add_to_chats cs db = added alter_chats db.chat_columns cs db

-- The tables after the migrations.
unfoldable pub migrated : Db → Db
migrated db = add_to_messages starred_columns (
    add_to_messages link_columns (
      add_to_chats state_columns
        (add_to_messages reply_columns (add_to_messages status_columns (created db)))))

module _ (d : Sqlite) (s : Succeeds d) (db : Db) where
  apply_schema_succeeds : apply_schema d db ≡ (ok tt, created db)
  unfolding apply_schema created
  apply_schema_succeeds = rw (s exec) refl

  status_succeeds : migrate_add_status_column d db ≡ (ok tt, add_to_messages status_columns db)
  unfolding migrate_add_status_column added any
  status_succeeds = elim (Bool-cases (has_column "status" db.message_columns)) [
    | inl e ↦
        rw (s (table_info "messages"), scan_for_succeeds d s 0 "status" db.message_columns db, e)
          refl
    | inr e ↦
        rw (s (table_info "messages"), scan_for_succeeds d s 0 "status" db.message_columns db, e)
          (add_columns_succeeds alter_messages [] d s status_columns db)
  ]

  reply_succeeds :
      migrate_add_reply_edit_revoke_columns d db ≡ (ok tt, add_to_messages reply_columns db)
  unfolding migrate_add_reply_edit_revoke_columns message_column_set
  reply_succeeds =
      rw (s (table_info "messages"), scan_columns_succeeds d s 0 db.message_columns db)
        (add_columns_succeeds alter_messages db.message_columns d s reply_columns db)

  state_succeeds : migrate_add_chat_state_columns d db ≡ (ok tt, add_to_chats state_columns db)
  unfolding migrate_add_chat_state_columns column_set
  state_succeeds =
      rw (s (table_info "chats"), scan_columns_succeeds d s 0 db.chat_columns db)
        (add_columns_succeeds alter_chats db.chat_columns d s state_columns db)

  link_succeeds : migrate_add_link_preview_columns d db ≡ (ok tt, add_to_messages link_columns db)
  unfolding migrate_add_link_preview_columns column_set
  link_succeeds =
      rw (s (table_info "messages"), scan_columns_succeeds d s 0 db.message_columns db)
        (add_columns_succeeds alter_messages db.message_columns d s link_columns db)

  starred_succeeds : migrate_add_starred_column d db ≡ (ok tt, add_to_messages starred_columns db)
  unfolding migrate_add_starred_column column_set
  starred_succeeds =
      rw (s (table_info "messages"), scan_columns_succeeds d s 0 db.message_columns db)
        (add_columns_succeeds alter_messages db.message_columns d s starred_columns db)

suc_ne : (n : ℕ) → (suc n == 0) ≡ false
suc_ne n = ground arith

module _ (is_found : Db → ℕ → Bool) where
  unfoldable pub backfilled : Db → Db
  backfilled db = record db { messages_fts = map fts_row (missing is_found db) ++ db.messages_fts }

  module _ (d : Sqlite) (s : Succeeds d) (db : Db) where
    backfill_by :
        (rows : List MessageRow)
        → missing is_found db ≡ rows
        → backfill_fts_if_needed is_found d db ≡ (ok tt, backfilled db)
    unfolding backfill_fts_if_needed backfilled
    backfill_by [] e = rw (s query, e) refl
    backfill_by (r ∷ rs) e = rw (s query, e, suc_ne (length rs), s exec, e) refl

  -- The migrations succeed one after the other, and then the index is filled.
  pub open_store_succeeds :
      (d : Sqlite)
      → Succeeds d
      → (db : Db) → open_store is_found d db ≡ (ok tt, backfilled (migrated db))
  unfolding open_store migrated
  open_store_succeeds d s db =
      let db1 = add_to_messages status_columns (created db) in
      let db2 = add_to_messages reply_columns db1 in
      let db3 = add_to_chats state_columns db2 in
      let db4 = add_to_messages link_columns db3 in
      let db5 = add_to_messages starred_columns db4 in
      rw
        (
          apply_schema_succeeds d s db,
          status_succeeds d s (created db),
          reply_succeeds d s db1,
          state_succeeds d s db2,
          link_succeeds d s db3,
          starred_succeeds d s db4,
          backfill_by d s db5 (missing is_found db5) refl,
        )
        refl
