-- ===== src/Store/Migrations/Again.antt =====
-- Opening a database that is up to date.
use wachat.Prelude.{
  ℕ, ◌≡◌, refl, ◌∙◌, String, Bool, true, not, List, [], ◌∷◌, text_eq, any, filter, All, arith,
  nat_eq,
}
use wachat.Store.Schema.{MessageRow, Db, Sqlite}
use wachat.Store.Exec.{ok, Succeeds}
use wachat.Store.Migrations.{
  Column, has_column, status_columns, reply_columns, link_columns, starred_columns, state_columns,
  message_columns, chat_columns, create_if_missing, alter_messages, alter_chats, open_store,
}
use wachat.Store.Migrations.Columns.{added_none}
use wachat.Store.Migrations.Open.{created, migrated, backfilled, open_store_succeeds}
use wachat.Store.Migrations.Versions.{IsCurrent}

create_none :
    (wanted cols : List String) (name : String)
    → has_column name cols ≡ true
    → create_if_missing wanted cols ≡ cols
unfolding any
create_none wanted [] name h = absurd (ground (arith, h))
create_none wanted (c ∷ cs) name h = refl

created_current : (db : Db) → IsCurrent db → created db ≡ db
unfolding created any
created_current db h =
    rw
      (
        create_none message_columns db.message_columns "id" (h.messages "id" refl),
        create_none chat_columns db.chat_columns "jid" (h.chats "jid" refl),
      )
      refl

migrated_current : (db : Db) → IsCurrent db → migrated db ≡ db
unfolding migrated any
migrated_current db h =
    let m = λ (cs : List (Column MessageRow)). added_none alter_messages db.message_columns cs db in
    rw
      (
        created_current db h,
        m status_columns (h.messages "status" refl, tt),
        m reply_columns (
          h.messages "quoted_waid" refl,
          (
            h.messages "quoted_body" refl,
            (
              h.messages "quoted_sender" refl,
              (h.messages "edited" refl, (h.messages "revoked" refl, tt)),
            ),
          ),
        ),
        added_none alter_chats db.chat_columns state_columns db
            (h.chats "pinned" refl, (h.chats "archived" refl, (h.chats "mute_until" refl, tt))),
        m link_columns (
          h.messages "link_url" refl,
          (h.messages "link_title" refl, (h.messages "link_desc" refl, tt)),
        ),
        m starred_columns (h.messages "starred" refl, tt),
      )
      refl

filter_none {ℓ} :
    {A : Type ℓ} (p : A → Bool) (xs : List A)
    → All (λ a. p a ≡ true) xs
    → filter (λ a. not (p a)) xs ≡ []
unfolding filter
filter_none p [] h = refl
filter_none p (x ∷ xs) h = rw h.0 (filter_none p xs h.1)

module _ (is_found : Db → ℕ → Bool) (d : Sqlite) (s : Succeeds d) (db : Db) where
  -- With a driver that works, Open on a database that has every column, where the full-text table
  -- finds each message by its rowid, succeeds and changes nothing.
  pub open_store_again :
      IsCurrent db
      → All (λ r. is_found db r.id ≡ true) db.messages
      → open_store is_found d db ≡ (ok tt, db)
  unfolding backfilled
  open_store_again h found =
      open_store_succeeds is_found d s db
      ∙ rw
          (
            migrated_current db h,
            filter_none (λ (r : MessageRow). is_found db r.id) db.messages found,
          )
          refl
