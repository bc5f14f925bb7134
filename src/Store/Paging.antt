-- ===== src/Store/Paging.antt =====
-- internal/store/paging.go: keyset pages of one chat, newest first.
pub mod Order
pub mod Pages
pub mod Around
use wachat.Prelude.{
  ℕ, String, Bool, ◌&&◌, ◌||◌, not, Option, none, some, List, [], ◌∷◌, ◌++◌, map, ◌==◌, nat_eq,
  text_eq, ltb, find?, filter, take, get_last?, if◌then◌else◌,
}
use wachat.Prelude.Int.{ℤ, is_nonpositive, is_negative, to_ℕ}
use wachat.Prelude.Sort.{sort_by}
use wachat.Store.Schema.{Message, MessageRow, Db, Sqlite, query, rows_end, scan, text_or_empty}
use wachat.Store.Exec.{
  Exec, chat_jid, limit, window, no_rows, pure, fail, gets, call, refuse_if, ◌>>=◌, ◌>>◌,
}

pub record Cursor : Type 0 where
  pub ts : ℕ
  pub id : ℕ

abbrev pub zero_cursor : Cursor
zero_cursor = record { ts = 0; id = 0 }

unfoldable pub is_zero : Cursor → Bool
is_zero c = c.ts == 0 && c.id == 0

-- The columns of a row, unpacked.
unfoldable pub scan_message : MessageRow → Message
scan_message r = record {
  id = r.id;
  wa_id = r.wa_id;
  chat_jid = r.chat_jid;
  sender_jid = text_or_empty r.sender_jid;
  ts = r.ts;
  body = text_or_empty r.body;
  media_path = text_or_empty r.media_path;
  media_type = text_or_empty r.media_type;
  status = r.status;
  quoted_waid = text_or_empty r.quoted_waid;
  quoted_body = text_or_empty r.quoted_body;
  quoted_sender = text_or_empty r.quoted_sender;
  edited = not (r.edited == 0);
  revoked = not (r.revoked == 0);
  link_url = text_or_empty r.link_url;
  link_title = text_or_empty r.link_title;
  link_desc = text_or_empty r.link_desc;
  starred = not (r.starred == 0);
}

-- The loop over `rows.Next()`.
unfoldable pub scan_rows : Sqlite → List MessageRow → Exec (List Message)
scan_rows d [] = do call d rows_end; pure []
scan_rows d (r ∷ rs) = do call d (scan r.id); rest ← scan_rows d rs; pure (scan_message r ∷ rest)

-- ORDER BY ts DESC, id DESC
unfoldable pub newest_first : MessageRow → MessageRow → Bool
newest_first a b = ltb b.ts a.ts || (a.ts == b.ts && ltb b.id a.id)

-- ts < ? OR (ts = ? AND id < ?)
unfoldable pub is_older : ℕ → ℕ → MessageRow → Bool
is_older ts id r = ltb r.ts ts || (r.ts == ts && ltb r.id id)

-- ts > ? OR (ts = ? AND id > ?)
unfoldable pub is_newer : ℕ → ℕ → MessageRow → Bool
is_newer ts id r = ltb ts r.ts || (r.ts == ts && ltb id r.id)

abbrev pub in_chat : String → MessageRow → Bool
in_chat chat r = r.chat_jid == chat

-- SELECT … WHERE p ORDER BY ts DESC, id DESC LIMIT n
unfoldable pub select_page : (MessageRow → Bool) → ℕ → Db → List MessageRow
select_page p n db = take n (sort_by newest_first (filter p db.messages))

unfoldable pub query_messages : Sqlite → (MessageRow → Bool) → ℕ → Exec (List Message)
unfolding scan_rows
query_messages d p n = do call d query; rows ← gets (select_page p n); scan_rows d rows

-- `next`: the position of the oldest row of the page.
unfoldable pub next_cursor : List Message → Cursor
next_cursor out = elim (get_last? out) [
  | none ↦ zero_cursor
  | some m ↦ record { ts = m.ts; id = m.id }
]

-- The WHERE clause of a page: the whole chat, or what is older than the cursor.
unfoldable pub page_where : String → Cursor → MessageRow → Bool
page_where chat before r =
    if is_zero before then in_chat chat r else in_chat chat r && is_older before.ts before.id r

unfoldable pub page_older : Sqlite → String → Cursor → ℤ → Exec (List Message × Cursor)
unfolding query_messages
page_older d chat before n = do
  refuse_if (chat == "") chat_jid
  refuse_if (is_nonpositive n) limit
  out ← query_messages d (page_where chat before) (to_ℕ n)
  pure (out, next_cursor out)

-- The anchor row: `WHERE id = ? AND chat_jid = ?`.
unfoldable pub find_anchor : Sqlite → String → ℕ → Exec Message
find_anchor d chat anchor_id = do
  call d query
  row ← gets (λ db. find? (λ r. r.id == anchor_id && in_chat chat r) db.messages)
  elim row [ none ↦ fail no_rows | some r ↦ do call d (scan r.id); pure (scan_message r) ]

unfoldable pub page_around : Sqlite → String → ℕ → ℤ → ℤ → Exec (List Message × Cursor)
page_around d chat anchor_id before after = do
  refuse_if (chat == "") chat_jid
  refuse_if (is_negative before || is_negative after) window
  anchor ← find_anchor d chat anchor_id
  newer ← query_messages d (λ r. in_chat chat r && is_newer anchor.ts anchor.id r) (to_ℕ after)
  older ← query_messages d (λ r. in_chat chat r && is_older anchor.ts anchor.id r) (to_ℕ before)
  let out = newer ++ anchor ∷ older
  pure (out, next_cursor out)
