-- ===== src/Store/WellFormed.antt =====
-- The invariant of the database: rowids, unique message ids, and chat rows that cover the messages.
use wachat.Prelude.{ℕ, ◌≤◌, ◌<◌, ◌≡◌, false, Option, none, some, All, Pairs, ◌==◌, text_eq}
use wachat.Store.Schema.{MessageRow, ChatRow, Db, find_chat}

-- Newer rows have larger ids.
abbrev pub IsRowidOrder : MessageRow → MessageRow → Type 0
IsRowidOrder newer older = older.id < newer.id

abbrev pub IsOtherMessage : MessageRow → MessageRow → Type 0
IsOtherMessage a b = (b.wa_id == a.wa_id) ≡ false

-- The chat row holds a time that is no earlier.
abbrev pub IsAtLeast : ℕ → Option ℕ → Type 0
IsAtLeast ts none = ⊥
IsAtLeast ts (some t) = ts ≤ t

abbrev pub Covers : Option ChatRow → ℕ → Type 0
Covers none ts = ⊥
Covers (some c) ts = IsAtLeast ts c.last_ts

pub record WellFormed (db : Db) : Type 0 where
  pub positive : All (λ r. 0 < r.id) db.messages
  pub rowids : Pairs IsRowidOrder db.messages
  pub unique : Pairs IsOtherMessage db.messages
  pub covered : All (λ r. Covers (find_chat r.chat_jid db.chats) r.ts) db.messages
