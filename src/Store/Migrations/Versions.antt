-- ===== src/Store/Migrations/Versions.antt =====
-- Databases of every version: what Open adds, keeps and leaves alone.
use wachat.Prelude.{◌≡◌, ◌⊎◌, [], text_eq, nat_eq}
use wachat.Store.Schema.{Db}
use wachat.Store.Migrations.{old_message_columns, old_chat_columns, message_columns, chat_columns}
use wachat.Store.Migrations.Columns.{HasColumns}

-- Both tables have every column that the program uses.
pub record IsCurrent (db : Db) : Type 0 where
  pub messages : HasColumns message_columns db.message_columns
  pub chats : HasColumns chat_columns db.chat_columns

-- A table is missing, or of some version of the program.
pub record IsOpenable (db : Db) : Type 0 where
  pub messages : (db.message_columns ≡ []) ⊎ HasColumns old_message_columns db.message_columns
  pub chats : (db.chat_columns ≡ []) ⊎ HasColumns old_chat_columns db.chat_columns
