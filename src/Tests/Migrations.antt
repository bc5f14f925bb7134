-- ===== src/Tests/Migrations.antt =====
-- Opening a database of an older version, and one that is up to date.
use wachat.Prelude.{ℕ, ◌≡◌, refl, [], ◌∷◌, ◌++◌, Bool, true, All, any, ◌==◌, nat_eq}
use wachat.Store.Schema.{Db}
use wachat.Store.Exec.{ok}
use wachat.Store.Migrations.{
  open_store, old_message_columns, old_chat_columns, message_columns, chat_columns,
}
use wachat.Store.Migrations.Versions.{IsCurrent}
use wachat.Store.Migrations.Again.{open_store_again}
use wachat.Tests.Data.{memory, memory-Succeeds, three, writes}

abbrev by_index : Db → ℕ → Bool
by_index db i = any (λ e. e.rowid == i) db.messages_fts

-- A database of the version that brought the column "status".
abbrev second_version : Db
second_version = record three {
  message_columns = old_message_columns ++ "status" ∷ [];
  chat_columns = old_chat_columns;
}

abbrev up_to_date : Db
up_to_date = record three { message_columns = message_columns; chat_columns = chat_columns }

up_to_date-IsCurrent : IsCurrent up_to_date
up_to_date-IsCurrent = record { messages = λ name h. h; chats = λ name h. h }

up_to_date_found : All (λ r. by_index up_to_date r.id ≡ true) up_to_date.messages
unfolding writes
up_to_date_found = (refl, (refl, (refl, tt)))

open_store_again_example : open_store by_index memory up_to_date ≡ (ok tt, up_to_date)
open_store_again_example =
    open_store_again by_index memory memory-Succeeds up_to_date up_to_date-IsCurrent
      up_to_date_found
