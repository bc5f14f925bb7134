-- ===== src/Store/Messages.antt =====
-- internal/store/messages.go: the writes on single messages and chats.
pub mod Insert
pub mod Effect
pub mod Sync
pub mod Updates
use wachat.Prelude.{
  ℕ, ◌+◌, String, Bool, true, false, ◌&&◌, Option, none, some, List, [], ◌∷◌, ◌==◌, nat_eq, text_eq,
  if◌then◌else◌, max, any, update_where,
}
use wachat.Prelude.Int.{ℤ}
use wachat.Prelude.Tables.{upsert_where, at_key}
use wachat.Store.Schema.{
  Message, MessageRow, ChatRow, FtsRow, Db, Sqlite, begin_tx, commit_tx, exec, exec_insert,
  exec_upsert, rows_affected, ids, text_or_empty,
}
use wachat.Store.Exec.{
  Exec, ok, wa_id, chat_jid, jid, status, pure, modify, call, refuse_if, rollback_on_error, ◌>>=◌,
  ◌>>◌,
}

abbrev pub status_pending : String
status_pending = "pending"

abbrev pub status_sent : String
status_sent = "sent"

abbrev pub status_delivered : String
status_delivered = "delivered"

abbrev pub status_read : String
status_read = "read"

abbrev pub status_played : String
status_played = "played"

-- An empty text is stored as NULL.
unfoldable pub nullable_string : String → Option String
nullable_string s = if s == "" then none else some s

unfoldable pub bool_to_int : Bool → ℕ
bool_to_int true = 1
bool_to_int false = 0

-- `status := m.Status; if status == "" { status = StatusSent }`
unfoldable pub status_or_sent : String → String
status_or_sent s = if s == "" then status_sent else s

-- The VALUES of the INSERT, under the rowid that the database assigns.
unfoldable pub to_row : ℕ → Message → MessageRow
to_row rowid m = record {
  id = rowid;
  wa_id = m.wa_id;
  chat_jid = m.chat_jid;
  sender_jid = nullable_string m.sender_jid;
  ts = m.ts;
  body = nullable_string m.body;
  media_path = nullable_string m.media_path;
  media_type = nullable_string m.media_type;
  status = status_or_sent m.status;
  quoted_waid = nullable_string m.quoted_waid;
  quoted_body = nullable_string m.quoted_body;
  quoted_sender = nullable_string m.quoted_sender;
  edited = bool_to_int m.edited;
  revoked = bool_to_int m.revoked;
  link_url = nullable_string m.link_url;
  link_title = nullable_string m.link_title;
  link_desc = nullable_string m.link_desc;
  starred = bool_to_int m.starred;
}

-- The trigger messages_ai.
abbrev pub fts_row : MessageRow → FtsRow
fts_row r = record { rowid = r.id; body = text_or_empty r.body }

-- INSERT INTO messages … ON CONFLICT(wa_id) DO NOTHING, with its trigger. The result is
-- `affected == 1`.
unfoldable pub insert_row : Sqlite → Message → Db → Bool × Db
insert_row d m db =
    if any (at_key (λ r. r.wa_id) m.wa_id) db.messages
    then (false, db)
    else let row = to_row (d.next_id (ids db.messages)) m in
      (
        true,
        record db { messages = row ∷ db.messages; messages_fts = fts_row row ∷ db.messages_fts },
      )

-- MAX(COALESCE(last_ts, 0), excluded.last_ts)
abbrev pub later : Option ℕ → ℕ → ℕ
later none ts = max 0 ts
later (some old) ts = max old ts

abbrev pub new_chat : String → String → Option ℕ → ℕ → ChatRow
new_chat j name last_ts unread = record {
  jid = j;
  name = name;
  last_ts = last_ts;
  unread = unread;
  pinned = 0;
  archived = 0;
  mute_until = ℤ.pos 0;
}

abbrev pub bump_chat : ℕ → ℕ → ChatRow → ChatRow
bump_chat ts delta c = record c { last_ts = some (later c.last_ts ts); unread = c.unread + delta }

-- The upsert of the chat row: `last_ts` only advances, `unread` grows by `delta`.
unfoldable pub touch_chat : String → ℕ → ℕ → List ChatRow → List ChatRow
touch_chat j ts delta =
    upsert_where (at_key (λ c. c.jid) j) (new_chat j "" (some ts) delta) (bump_chat ts delta)

abbrev pub unread_delta : Bool → Bool → ℕ
unread_delta created bump_unread = if created && bump_unread then 1 else 0

abbrev pub insert_message : Sqlite → Message → Exec Bool
insert_message d m = do
  call d (exec_insert m.wa_id)
  λ db. let (created, db') = insert_row d m db in (ok created, db')

unfoldable pub insert : Sqlite → Message → Bool → Exec Bool
insert d m bump_unread = do
  refuse_if (m.wa_id == "") wa_id
  refuse_if (m.chat_jid == "") chat_jid
  call d begin_tx
  rollback_on_error (do
    created ← insert_message d m
    call d rows_affected
    call d (exec_upsert m.chat_jid)
    modify (λ db. record db {
      chats = touch_chat m.chat_jid m.ts (unread_delta created bump_unread) db.chats;
    })
    call d commit_tx
    pure created)

unfoldable pub upsert_chat : Sqlite → String → String → Exec (Unit {0})
upsert_chat d j name = do
  refuse_if (j == "") jid
  call d exec
  modify (λ db. record db {
    chats =
        upsert_where (at_key (λ c. c.jid) j) (new_chat j name none 0)
          (λ c. record c { name = name }) db.chats;
  })

-- The trigger messages_au, for each row that an UPDATE visits: the index entry of the old text goes
-- and one of the new text comes, under the same rowid.
abbrev pub set_text : MessageRow → FtsRow → FtsRow
set_text r e = record e { body = text_or_empty r.body }

abbrev pub reindex : MessageRow → List FtsRow → List FtsRow
reindex r = upsert_where (at_key (λ f. f.rowid) r.id) (fts_row r) (set_text r)

unfoldable pub reindex_where :
    (MessageRow → Bool) → (MessageRow → MessageRow) → List MessageRow → List FtsRow → List FtsRow
reindex_where p f [] fts = fts
reindex_where p f (r ∷ rs) fts = reindex_where p f rs (if p r then reindex (f r) fts else fts)

-- UPDATE messages SET f WHERE wa_id = w, with its trigger.
unfoldable pub update_message : String → (MessageRow → MessageRow) → Db → Db
unfolding reindex_where
update_message w f db = record db {
  messages = update_where (at_key (λ r. r.wa_id) w) f db.messages;
  messages_fts = reindex_where (at_key (λ r. r.wa_id) w) f db.messages db.messages_fts;
}

unfoldable pub set_starred : Sqlite → String → Bool → Exec (Unit {0})
set_starred d w starred = do
  refuse_if (w == "") wa_id
  call d exec
  modify (update_message w (λ r. record r { starred = bool_to_int starred }))

unfoldable pub apply_edit : Sqlite → String → String → Exec (Unit {0})
apply_edit d w new_body = do
  refuse_if (w == "") wa_id
  call d exec
  modify (update_message w (λ r. record r { body = nullable_string new_body; edited = 1 }))

unfoldable pub apply_revoke : Sqlite → String → Exec (Unit {0})
apply_revoke d w = do
  refuse_if (w == "") wa_id
  call d exec
  modify (update_message w (λ r. record r { revoked = 1 }))

unfoldable pub update_status : Sqlite → String → String → Exec (Unit {0})
update_status d w s = do
  refuse_if (w == "") wa_id
  refuse_if (s == "") status
  call d exec
  modify (update_message w (λ r. record r { status = s }))

unfoldable pub mark_read : Sqlite → String → Exec (Unit {0})
mark_read d j = do
  refuse_if (j == "") jid
  call d exec
  modify (λ db. record db {
    chats = update_where (at_key (λ c. c.jid) j) (λ c. record c { unread = 0 }) db.chats;
  })
