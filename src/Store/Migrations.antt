-- ===== src/Store/Migrations.antt =====
-- internal/store/store.go: opening a database, which creates missing tables and adds the columns
-- that later versions brought. A table without columns is one that is not there.
pub mod Columns
pub mod Open
pub mod Kept
pub mod Versions
pub mod Again
use wachat.Prelude.{
  ℕ, suc, String, Bool, true, false, not, Option, none, List, [], ◌∷◌, ◌++◌, map, ◌==◌, text_eq,
  nat_eq, any, filter, if◌then◌else◌, length,
}
use wachat.Prelude.Int.{ℤ}
use wachat.Store.Schema.{MessageRow, ChatRow, Db, Sqlite, query, exec, exec_alter, table_info, scan}
use wachat.Store.Exec.{Exec, pure, modify, gets, call, ◌>>=◌, ◌>>◌}
use wachat.Store.Messages.{status_sent, fts_row}

abbrev pub has_column : String → List String → Bool
has_column c = any (λ name. name == c)

-- A column with its ALTER TABLE: the default that it writes to the rows of the table.
pub record Column (R : Type 0) : Type 0 where
  pub name : String
  pub set_default : R → R

abbrev pub old_message_columns : List String
old_message_columns =
    "id" ∷ "wa_id" ∷ "chat_jid" ∷ "sender_jid" ∷ "ts" ∷ "body" ∷ "media_path" ∷ "media_type" ∷ []

abbrev pub status_columns : List (Column MessageRow)
status_columns =
    record { name = "status"; set_default = λ r. record r { status = status_sent } } ∷ []

abbrev pub reply_columns : List (Column MessageRow)
reply_columns =
    record { name = "quoted_waid"; set_default = λ r. record r { quoted_waid = none } }
    ∷ record { name = "quoted_body"; set_default = λ r. record r { quoted_body = none } }
    ∷ record { name = "quoted_sender"; set_default = λ r. record r { quoted_sender = none } }
    ∷ record { name = "edited"; set_default = λ r. record r { edited = 0 } }
    ∷ record { name = "revoked"; set_default = λ r. record r { revoked = 0 } }
    ∷ []

abbrev pub link_columns : List (Column MessageRow)
link_columns =
    record { name = "link_url"; set_default = λ r. record r { link_url = none } }
    ∷ record { name = "link_title"; set_default = λ r. record r { link_title = none } }
    ∷ record { name = "link_desc"; set_default = λ r. record r { link_desc = none } }
    ∷ []

abbrev pub starred_columns : List (Column MessageRow)
starred_columns = record { name = "starred"; set_default = λ r. record r { starred = 0 } } ∷ []

abbrev pub old_chat_columns : List String
old_chat_columns = "jid" ∷ "name" ∷ "last_ts" ∷ "unread" ∷ []

abbrev pub state_columns : List (Column ChatRow)
state_columns =
    record { name = "pinned"; set_default = λ c. record c { pinned = 0 } }
    ∷ record { name = "archived"; set_default = λ c. record c { archived = 0 } }
    ∷ record { name = "mute_until"; set_default = λ c. record c { mute_until = ℤ.pos 0 } }
    ∷ []

abbrev pub names : {R : Type 0} → List (Column R) → List String
names = map (λ c. c.name)

abbrev pub message_columns : List String
message_columns =
    old_message_columns
    ++ names status_columns
    ++ names reply_columns
    ++ names link_columns
    ++ names starred_columns

abbrev pub chat_columns : List String
chat_columns = old_chat_columns ++ names state_columns

-- CREATE TABLE IF NOT EXISTS
abbrev pub create_if_missing : List String → List String → List String
create_if_missing schema [] = schema
create_if_missing schema (c ∷ cs) = c ∷ cs

-- schema.sql; its other statements change nothing that is modelled.
unfoldable pub apply_schema : Sqlite → Exec (Unit {0})
apply_schema d = do
  call d exec
  modify (λ db. record db {
    message_columns = create_if_missing message_columns db.message_columns;
    chat_columns = create_if_missing chat_columns db.chat_columns;
  })

-- The loop over `rows.Next()`, one Scan for each column.
unfoldable pub scan_columns : Sqlite → ℕ → List String → Exec (List String)
scan_columns d i [] = pure []
scan_columns d i (c ∷ cs) = do call d (scan i); rest ← scan_columns d (suc i) cs; pure (c ∷ rest)

-- PRAGMA table_info; `table` reads the columns.
unfoldable pub column_set : Sqlite → String → (Db → List String) → Exec (List String)
unfolding scan_columns
column_set d table columns = do call d (table_info table); λ db. scan_columns d 0 (columns db) db

unfoldable pub message_column_set : Sqlite → Exec (List String)
unfolding scan_columns
message_column_set d = do
  call d (table_info "messages")
  λ db. scan_columns d 0 db.message_columns db

-- The loop with its break at the column "status".
unfoldable pub scan_for : Sqlite → ℕ → String → List String → Exec Bool
scan_for d i name [] = pure false
scan_for d i name (c ∷ cs) =
    let rest = scan_for d (suc i) name cs in
    do call d (scan i); if c == name then pure true else rest

-- ALTER TABLE … ADD COLUMN
abbrev pub alter_messages : Column MessageRow → Db → Db
alter_messages c db = record db {
  message_columns = db.message_columns ++ c.name ∷ [];
  messages = map c.set_default db.messages;
}

abbrev pub alter_chats : Column ChatRow → Db → Db
alter_chats c db = record db {
  chat_columns = db.chat_columns ++ c.name ∷ [];
  chats = map c.set_default db.chats;
}

-- The loop over the wanted columns: those that the table does not have are added.
unfoldable pub add_columns :
    {R : Type 0} → Sqlite → (Column R → Db → Db) → List String → List (Column R) → Exec (Unit {0})
add_columns d alter have [] = pure tt
add_columns d alter have (c ∷ cs) =
    let rest = add_columns d alter have cs in
    let add : Exec (Unit {0}) = do call d (exec_alter c.name); modify (alter c); rest
    in if has_column c.name have then rest else add

unfoldable pub migrate_add_status_column : Sqlite → Exec (Unit {0})
unfolding scan_for add_columns
migrate_add_status_column d = do
  call d (table_info "messages")
  has ← (λ db. scan_for d 0 "status" db.message_columns db)
  if has then pure tt else add_columns d alter_messages [] status_columns

unfoldable pub migrate_add_reply_edit_revoke_columns : Sqlite → Exec (Unit {0})
unfolding message_column_set add_columns
migrate_add_reply_edit_revoke_columns d = do
  have ← message_column_set d
  add_columns d alter_messages have reply_columns

unfoldable pub migrate_add_chat_state_columns : Sqlite → Exec (Unit {0})
unfolding column_set add_columns
migrate_add_chat_state_columns d = do
  have ← column_set d "chats" (λ db. db.chat_columns)
  add_columns d alter_chats have state_columns

unfoldable pub migrate_add_link_preview_columns : Sqlite → Exec (Unit {0})
unfolding column_set add_columns
migrate_add_link_preview_columns d = do
  have ← column_set d "messages" (λ db. db.message_columns)
  add_columns d alter_messages have link_columns

unfoldable pub migrate_add_starred_column : Sqlite → Exec (Unit {0})
unfolding column_set add_columns
migrate_add_starred_column d = do
  have ← column_set d "messages" (λ db. db.message_columns)
  add_columns d alter_messages have starred_columns

-- Whether `SELECT 1 FROM messages_fts WHERE rowid = ?` finds a row is up to the full-text
-- extension, which keeps no copy of the texts.
module _ (is_found : Db → ℕ → Bool) where
  abbrev pub missing : Db → List MessageRow
  missing db = filter (λ r. not (is_found db r.id)) db.messages

  abbrev index_missing : Sqlite → Exec (Unit {0})
  index_missing d = do
    call d exec
    modify (λ db. record db { messages_fts = map fts_row (missing db) ++ db.messages_fts })

  unfoldable pub backfill_fts_if_needed : Sqlite → Exec (Unit {0})
  backfill_fts_if_needed d = do
    call d query
    pending ← gets (λ db. length (missing db))
    if pending == 0 then pure tt else index_missing d

  unfoldable pub open_store : Sqlite → Exec (Unit {0})
  unfolding apply_schema migrate_add_status_column migrate_add_reply_edit_revoke_columns
      migrate_add_chat_state_columns migrate_add_link_preview_columns migrate_add_starred_column
      backfill_fts_if_needed
  open_store d = do
    apply_schema d
    migrate_add_status_column d
    migrate_add_reply_edit_revoke_columns d
    migrate_add_chat_state_columns d
    migrate_add_link_preview_columns d
    migrate_add_starred_column d
    backfill_fts_if_needed d
