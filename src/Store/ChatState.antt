-- ===== src/Store/ChatState.antt =====
-- internal/store/chatstate.go: pinned, archived and muted chats.
pub mod Effect
use wachat.Prelude.{String, Bool, ◌==◌, text_eq, none, update_where}
use wachat.Prelude.Int.{ℤ}
use wachat.Prelude.Tables.{upsert_where, at_key}
use wachat.Store.Schema.{ChatRow, Db, Sqlite, exec, exec_ensure}
use wachat.Store.Exec.{Exec, jid, modify, call, refuse_if, ◌>>◌}
use wachat.Store.Messages.{new_chat, bool_to_int}

-- INSERT … ON CONFLICT(jid) DO NOTHING
unfoldable pub ensure_chat_row : Sqlite → String → Exec (Unit {0})
ensure_chat_row d j = do
  call d exec_ensure
  modify (λ db. record db {
    chats = upsert_where (at_key (λ c. c.jid) j) (new_chat j "" none 0) (λ c. c) db.chats;
  })

-- UPDATE chats SET f WHERE jid = j
abbrev pub update_chat : String → (ChatRow → ChatRow) → Db → Db
update_chat j f db = record db { chats = update_where (at_key (λ c. c.jid) j) f db.chats }

unfoldable pub set_pinned : Sqlite → String → Bool → Exec (Unit {0})
unfolding ensure_chat_row
set_pinned d j pinned = do
  refuse_if (j == "") jid
  ensure_chat_row d j
  call d exec
  modify (update_chat j (λ c. record c { pinned = bool_to_int pinned }))

unfoldable pub set_archived : Sqlite → String → Bool → Exec (Unit {0})
unfolding ensure_chat_row
set_archived d j archived = do
  refuse_if (j == "") jid
  ensure_chat_row d j
  call d exec
  modify (update_chat j (λ c. record c { archived = bool_to_int archived }))

unfoldable pub set_mute_until : Sqlite → String → ℤ → Exec (Unit {0})
unfolding ensure_chat_row
set_mute_until d j until = do
  refuse_if (j == "") jid
  ensure_chat_row d j
  call d exec
  modify (update_chat j (λ c. record c { mute_until = until }))
