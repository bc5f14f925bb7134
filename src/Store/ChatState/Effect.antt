-- ===== src/Store/ChatState/Effect.antt =====
-- What pinning, archiving and muting change: one column of one chat.
use wachat.Prelude.{
  ◌≡◌, ◌≢◌, refl, String, Bool, Option, none, some, ◌==◌, text_eq, beq_ne, if◌then◌else◌,
  Bool-cases, inl, inr, update_where,
}
use wachat.Prelude.Int.{ℤ}
use wachat.Prelude.Tables.{at_key, apply_or, upsert_where, find?-upsert_where, find?-update_where}
use wachat.Store.Schema.{ChatRow, Db, Sqlite, exec, exec_ensure, find_chat}
use wachat.Store.Exec.{Succeeds}
use wachat.Store.Messages.{new_chat, bool_to_int}
use wachat.Store.ChatState.{ensure_chat_row, set_pinned, set_archived, set_mute_until}

-- The row of a chat, or the one that is made for it.
abbrev pub row_or_new : String → Option ChatRow → ChatRow
row_or_new jid = apply_or (new_chat jid "" none 0) (λ c. c)

module _ (d : Sqlite) (s : Succeeds d) (jid : String) (named : jid ≢ "") (db : Db)
    (j : String) where
  find_chat-set :
      (f : ChatRow → ChatRow)
      → ((c : ChatRow) → (f c).jid ≡ c.jid)
      → find_chat j (
          update_where
            (at_key (λ c. c.jid) jid)
            f
            (upsert_where (at_key (λ c. c.jid) jid) (new_chat jid "" none 0) (λ c. c) db.chats))
        ≡ (if jid == j
            then some (f (row_or_new jid (find_chat j db.chats)))
            else find_chat j db.chats)
  find_chat-set f keeps =
      let made =
        find?-upsert_where (λ c. c.jid) (λ c. c) (λ c. refl) (new_chat jid "" none 0) jid refl j
          db.chats in
      elim (Bool-cases (jid == j)) [
        | inl e ↦ rw (find?-update_where (λ c. c.jid) f keeps jid j, made, e) refl
        | inr e ↦ rw (find?-update_where (λ c. c.jid) f keeps jid j, made, e) refl
      ]

  -- With a driver that works and a chat id that is not empty: SetPinned, SetArchived and
  -- SetMuteUntil each write one column of that chat's row, which they make first if there is none,
  -- and leave every other chat as it was.
  pub find_chat-set_state :
      (flag : Bool) (until : ℤ)
      → (find_chat j (set_pinned d jid flag db).1.chats ≡ (
          if jid == j
          then some (record (row_or_new jid (find_chat j db.chats)) { pinned = bool_to_int flag })
          else find_chat j db.chats))
        × (find_chat j (set_archived d jid flag db).1.chats ≡ (
            if jid == j
            then some
                (record (row_or_new jid (find_chat j db.chats)) { archived = bool_to_int flag })
            else find_chat j db.chats))
        × (find_chat j (set_mute_until d jid until db).1.chats ≡ (
            if jid == j
            then some (record (row_or_new jid (find_chat j db.chats)) { mute_until = until })
            else find_chat j db.chats))
  unfolding set_pinned set_archived set_mute_until ensure_chat_row
  find_chat-set_state flag until = (
    rw (beq_ne jid "" named, s exec_ensure, s exec)
        (find_chat-set (λ c. record c { pinned = bool_to_int flag }) (λ c. refl)),
    rw (beq_ne jid "" named, s exec_ensure, s exec)
        (find_chat-set (λ c. record c { archived = bool_to_int flag }) (λ c. refl)),
    rw (beq_ne jid "" named, s exec_ensure, s exec)
        (find_chat-set (λ c. record c { mute_until = until }) (λ c. refl)),
  )
