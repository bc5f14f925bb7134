-- ===== src/Store/Migrations/Kept.antt =====
-- What a migration keeps of the rows of a database of an older version.
use wachat.Prelude.{
  ◌≡◌, refl, ap₂, ◌∙◌, String, false, none, if◌then◌else◌, All-map, inl, inr, List, [], ◌∷◌, map,
  text_eq, any, All, arith, Bool-cases, nat_eq,
}
use wachat.Prelude.Int.{ℤ}
use wachat.Store.Schema.{MessageRow, ChatRow, Db}
use wachat.Store.Migrations.{
  Column, has_column, status_columns, reply_columns, link_columns, starred_columns, state_columns,
  message_columns, chat_columns, create_if_missing, alter_messages, alter_chats,
}
use wachat.Store.Migrations.Columns.{HasColumns, added-preserves, has_column-append}
use wachat.Store.Migrations.Open.{created, add_to_messages, add_to_chats, migrated}

-- What a row of a table with these columns holds: a later column that the table lacks holds nothing.
abbrev pub message_under : List String → MessageRow → MessageRow
message_under have r = record r {
  status = if has_column "status" have then r.status else "";
  quoted_waid = if has_column "quoted_waid" have then r.quoted_waid else none;
  quoted_body = if has_column "quoted_body" have then r.quoted_body else none;
  quoted_sender = if has_column "quoted_sender" have then r.quoted_sender else none;
  edited = if has_column "edited" have then r.edited else 0;
  revoked = if has_column "revoked" have then r.revoked else 0;
  link_url = if has_column "link_url" have then r.link_url else none;
  link_title = if has_column "link_title" have then r.link_title else none;
  link_desc = if has_column "link_desc" have then r.link_desc else none;
  starred = if has_column "starred" have then r.starred else 0;
}

abbrev pub chat_under : List String → ChatRow → ChatRow
chat_under have c = record c {
  pinned = if has_column "pinned" have then c.pinned else 0;
  archived = if has_column "archived" have then c.archived else 0;
  mute_until = if has_column "mute_until" have then c.mute_until else ℤ.pos 0;
}

-- Every row of the first database is in the second, in its place, with what its columns held.
pub record IsKept (old db : Db) : Type 0 where
  pub messages :
      map (message_under old.message_columns) db.messages
      ≡ map (message_under old.message_columns) old.messages
  pub chats :
      map (chat_under old.chat_columns) db.chats ≡ map (chat_under old.chat_columns) old.chats

map-set {ℓ κ} :
    {A : Type ℓ} {B : Type κ} (view : A → B) (f : A → A) (xs : List A)
    → ((a : A) → view (f a) ≡ view a)
    → map view (map f xs) ≡ map view xs
map-set view f [] h = refl
map-set view f (x ∷ xs) h = ap₂ (λ y ys. y ∷ ys) (h x) (map-set view f xs h)

-- A database on the way: it has the columns of the old one, and its rows.
pub record IsLater (old db : Db) : Type 0 where
  pub message_columns : HasColumns old.message_columns db.message_columns
  pub chat_columns : HasColumns old.chat_columns db.chat_columns
  pub rows : IsKept old db

-- A column that a larger table lacks, the smaller lacked.
lacked :
    (old have : List String) (name : String)
    → HasColumns old have
    → has_column name have ≡ false
    → has_column name old ≡ false
lacked old have name h absent = elim (Bool-cases (has_column name old)) [
  | inl e ↦ absurd (ground (arith, h name e))
  | inr e ↦ e
]

module _ (old : Db) where
  -- The default of this column changes no row of a table that lacked it.
  abbrev IsNewMessage : Column MessageRow → Type 0
  IsNewMessage c =
      has_column c.name old.message_columns ≡ false
      → (r : MessageRow)
      → message_under old.message_columns (c.set_default r) ≡ message_under old.message_columns r

  abbrev IsNewChat : Column ChatRow → Type 0
  IsNewChat c =
      has_column c.name old.chat_columns ≡ false
      → (r : ChatRow)
      → chat_under old.chat_columns (c.set_default r) ≡ chat_under old.chat_columns r

  alter_messages-IsLater :
      (c : Column MessageRow)
      → IsNewMessage c
      → has_column c.name old.message_columns ≡ false
      → (x : Db) → IsLater old x
      → IsLater old (alter_messages c x)
  alter_messages-IsLater c new absent x h = record {
    message_columns =
        λ name e. has_column-append name x.message_columns (c.name ∷ []) (h.message_columns name e);
    chat_columns = h.chat_columns;
    rows = record {
      messages =
          map-set (message_under old.message_columns) c.set_default x.messages (new absent)
          ∙ h.rows.messages;
      chats = h.rows.chats;
    };
  }

  alter_chats-IsLater :
      (c : Column ChatRow)
      → IsNewChat c
      → has_column c.name old.chat_columns ≡ false
      → (x : Db) → IsLater old x
      → IsLater old (alter_chats c x)
  alter_chats-IsLater c new absent x h = record {
    message_columns = h.message_columns;
    chat_columns =
        λ name e. has_column-append name x.chat_columns (c.name ∷ []) (h.chat_columns name e);
    rows = record {
      messages = h.rows.messages;
      chats =
          map-set (chat_under old.chat_columns) c.set_default x.chats (new absent) ∙ h.rows.chats;
    };
  }

  add_to_messages-IsLater :
      (cs : List (Column MessageRow))
      → All IsNewMessage cs
      → (x : Db) → IsLater old x
      → IsLater old (add_to_messages cs x)
  add_to_messages-IsLater cs new x h =
      added-preserves alter_messages x.message_columns (IsLater old) cs x
        (All-map IsNewMessage _
          (λ c n absent. alter_messages-IsLater c n (lacked _ _ c.name h.message_columns absent)) cs
          new)
        h

  add_to_chats-IsLater :
      (cs : List (Column ChatRow))
      → All IsNewChat cs
      → (x : Db) → IsLater old x
      → IsLater old (add_to_chats cs x)
  add_to_chats-IsLater cs new x h =
      added-preserves alter_chats x.chat_columns (IsLater old) cs x
        (All-map IsNewChat _
          (λ c n absent. alter_chats-IsLater c n (lacked _ _ c.name h.chat_columns absent)) cs new)
        h

create_grows : (schema cols : List String) → HasColumns cols (create_if_missing schema cols)
unfolding any
create_grows schema [] name e = absurd (ground (arith, e))
create_grows schema (c ∷ cs) name e = e

created-IsLater : (db : Db) → IsLater db (created db)
unfolding created
created-IsLater db = record {
  message_columns = create_grows message_columns db.message_columns;
  chat_columns = create_grows chat_columns db.chat_columns;
  rows = record { messages = refl; chats = refl };
}

pub migrated-IsLater : (db : Db) → IsLater db (migrated db)
unfolding migrated
migrated-IsLater db =
    add_to_messages-IsLater db starred_columns (λ e r. rw e refl, tt) _
      (add_to_messages-IsLater db link_columns
        (λ e r. rw e refl, (λ e r. rw e refl, (λ e r. rw e refl, tt))) _
        (add_to_chats-IsLater db state_columns
          (λ e r. rw e refl, (λ e r. rw e refl, (λ e r. rw e refl, tt))) _
          (add_to_messages-IsLater db reply_columns
            (
              λ e r. rw e refl,
              (λ e r. rw e refl, (λ e r. rw e refl, (λ e r. rw e refl, (λ e r. rw e refl, tt)))),
            )
            _
            (add_to_messages-IsLater db status_columns (λ e r. rw e refl, tt) _
              (created-IsLater db)))))
