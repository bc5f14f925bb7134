-- ===== src/Store/Schema.antt =====
-- internal/store/schema.sql, and the types of internal/store: tables as lists of rows (newest row
-- first), a nullable column as an `Option`, a flag column as the number that it holds, and what
-- the store relies on of the SQLite driver as the record `Sqlite`.
use wachat.Prelude.{ℕ, ◌<◌, String, Bool, Option, none, some, List, map, All, ◌==◌, text_eq, find?}
use wachat.Prelude.Int.{ℤ}

-- Message of messages.go; times are unix milliseconds and not negative.
pub record Message : Type 0 where
  pub id : ℕ
  pub wa_id : String
  pub chat_jid : String
  pub sender_jid : String
  pub ts : ℕ
  pub body : String
  pub media_path : String
  pub media_type : String
  pub status : String
  pub quoted_waid : String
  pub quoted_body : String
  pub quoted_sender : String
  pub edited : Bool
  pub revoked : Bool
  pub link_url : String
  pub link_title : String
  pub link_desc : String
  pub starred : Bool

-- A row of the table `messages`.
pub record MessageRow : Type 0 where
  pub id : ℕ
  pub wa_id : String
  pub chat_jid : String
  pub sender_jid : Option String
  pub ts : ℕ
  pub body : Option String
  pub media_path : Option String
  pub media_type : Option String
  pub status : String
  pub quoted_waid : Option String
  pub quoted_body : Option String
  pub quoted_sender : Option String
  pub edited : ℕ
  pub revoked : ℕ
  pub link_url : Option String
  pub link_title : Option String
  pub link_desc : Option String
  pub starred : ℕ

-- A row of the table `chats`; `mute_until` is 0 for not muted and -1 for ever.
pub record ChatRow : Type 0 where
  pub jid : String
  pub name : String
  pub last_ts : Option ℕ
  pub unread : ℕ
  pub pinned : ℕ
  pub archived : ℕ
  pub mute_until : ℤ

-- A row of the table `reactions`, and the Reaction of reactions.go.
pub record Reaction : Type 0 where
  pub target_waid : String
  pub sender_jid : String
  pub emoji : String
  pub ts : ℕ

-- A row of `messages_fts`: the indexed text of the message with this rowid.
pub record FtsRow : Type 0 where
  pub rowid : ℕ
  pub body : String

-- The tables, and the columns that the tables `messages` and `chats` have.
pub record Db : Type 0 where
  pub message_columns : List String
  pub chat_columns : List String
  pub messages : List MessageRow
  pub chats : List ChatRow
  pub reactions : List Reaction
  pub messages_fts : List FtsRow
  pub settings : List (String × String)

-- The calls of the driver that can fail, each with the key that tells its rounds apart.
pub data Call : Type 0 where
  begin_tx commit_tx rows_affected prepare_insert prepare_upsert query rows_end exec exec_ensure :
      Call
  exec_insert exec_upsert exec_alter table_info scan_chat : String → Call
  scan : ℕ → Call

-- The driver, for the length of one method: which calls succeed, and the rowid of a new row.
-- SQLite documents that a new rowid is positive and larger than every rowid in the table.
pub record Sqlite : Type 0 where
  pub succeeds : Call → Bool
  pub next_id : List ℕ → ℕ
  pub next_id_pos : (ids : List ℕ) → 0 < next_id ids
  pub next_id_above : (ids : List ℕ) → All (λ i. i < next_id ids) ids

abbrev pub ids : List MessageRow → List ℕ
ids = map (λ r. r.id)

-- The row that `WHERE wa_id = ?` selects, and that `WHERE jid = ?` selects.
abbrev pub find_message : String → List MessageRow → Option MessageRow
find_message w = find? (λ r. r.wa_id == w)

abbrev pub find_chat : String → List ChatRow → Option ChatRow
find_chat j = find? (λ c. c.jid == j)

-- `sql.NullString.String`, and COALESCE(x, '').
abbrev pub text_or_empty : Option String → String
text_or_empty none = ""
text_or_empty (some s) = s
