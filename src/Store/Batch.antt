-- ===== src/Store/Batch.antt =====
-- internal/store/batch.go: many messages in one transaction.
pub mod Run
pub mod Latest
pub mod Each
pub mod Atomic
use wachat.Prelude.{
  ℕ, ◌+◌, String, Bool, ◌||◌, some, List, [], ◌∷◌, ◌==◌, text_eq, if◌then◌else◌, ltb,
}
use wachat.Prelude.Tables.{upsert_where, at_key}
use wachat.Store.Schema.{
  Message, ChatRow, Sqlite, begin_tx, commit_tx, prepare_insert, prepare_upsert, exec_upsert,
}
use wachat.Store.Exec.{Exec, pure, modify, call, rollback_on_error, ◌>>=◌, ◌>>◌}
use wachat.Store.Messages.{insert_row, insert_message, later, new_chat, bool_to_int}

-- The map `chatLastTS`, as the list of its entries.
pub record LastTs : Type 0 where
  pub jid : String
  pub ts : ℕ

-- `if ts, ok := chatLastTS[jid]; !ok || m.TS > ts { chatLastTS[jid] = m.TS }`
unfoldable pub note_ts : Message → List LastTs → List LastTs
note_ts m =
    upsert_where (at_key (λ e. e.jid) m.chat_jid) (record { jid = m.chat_jid; ts = m.ts })
      (λ e. if ltb e.ts m.ts then record e { ts = m.ts } else e)

abbrev pub is_skipped : Message → Bool
is_skipped m = m.wa_id == "" || m.chat_jid == ""

-- The first loop: the map, and the rows created so far.
unfoldable pub insert_all : Sqlite → List Message → List LastTs → ℕ → Exec (List LastTs × ℕ)
unfolding insert_row note_ts bool_to_int
insert_all d [] seen created = pure (seen, created)
insert_all d (m ∷ ms) seen created =
    let rest = insert_all d ms in
    let persist : Exec (List LastTs × ℕ) = do
      is_new ← insert_message d m
      rest (note_ts m seen) (created + bool_to_int is_new)
    in if is_skipped m then rest seen created else persist

-- The upsert without an unread count.
unfoldable pub advance_chat : String → ℕ → List ChatRow → List ChatRow
advance_chat jid ts =
    upsert_where (at_key (λ c. c.jid) jid) (new_chat jid "" (some ts) 0)
      (λ c. record c { last_ts = some (later c.last_ts ts) })

-- The second loop, over the map.
unfoldable pub upsert_all : Sqlite → List LastTs → Exec (Unit {0})
unfolding advance_chat
upsert_all d [] = pure tt
upsert_all d (e ∷ es) = do
  call d (exec_upsert e.jid)
  modify (λ db. record db { chats = advance_chat e.jid e.ts db.chats })
  upsert_all d es

unfoldable pub insert_batch : Sqlite → List Message → Exec ℕ
unfolding insert_all upsert_all
insert_batch d [] = pure 0
insert_batch d (m ∷ ms) = do
  call d begin_tx
  rollback_on_error (do
    call d prepare_insert
    (seen, created) ← insert_all d (m ∷ ms) [] 0
    call d prepare_upsert
    upsert_all d seen
    call d commit_tx
    pure created)
