-- ===== src/Store/Search.antt =====
-- internal/store/search.go, and ListStarred of messages.go: reads over all chats.
pub mod Ranked
use wachat.Prelude.{
  ℕ, String, Bool, true, Option, none, some, List, [], ◌∷◌, ◌++◌, map, ◌==◌, nat_eq, text_eq, ltb,
  find?, filter, take, if◌then◌else◌, Runes, runes, trim_space,
}
use wachat.Prelude.Int.{ℤ, is_nonpositive, to_ℕ}
use wachat.Prelude.Sort.{sort_by}
use wachat.Prelude.Tables.{at_key}
use wachat.Store.Schema.{
  Message, MessageRow, FtsRow, Db, Sqlite, query, rows_end, scan, find_chat, text_or_empty,
}
use wachat.Store.Exec.{Exec, limit, pure, gets, call, refuse_if, ◌>>=◌, ◌>>◌}
use wachat.Store.Paging.{scan_message, scan_rows}

-- A single quote for each double quote, within double quotes.
unfoldable pub fts_phrase : Runes → Runes
fts_phrase q = runes "\"" ++ map (λ c. if c == 34 then 39 else c) q ++ runes "\""

-- What the full-text extension answers to MATCH: rowids, with a rank (the best is the least) and a
-- snippet.
pub record Match : Type 0 where
  pub rowid : ℕ
  pub rank : ℕ
  pub snippet : String

pub record SearchHit : Type 0 where
  pub chat_jid : String
  pub chat_name : String
  pub message_id : ℕ
  pub wa_id : String
  pub ts : ℕ
  pub sender_jid : String
  pub snippet : String

-- A match with its message.
pub record Joined : Type 0 where
  pub found : Match
  pub row : MessageRow

abbrev pub join_found : Match → Option MessageRow → List Joined → List Joined
join_found m none rest = rest
join_found m (some r) rest = record { found = m; row = r } ∷ rest

-- JOIN messages m ON m.id = messages_fts.rowid
unfoldable pub join_messages : List MessageRow → List Match → List Joined
join_messages rows [] = []
join_messages rows (m ∷ ms) =
    join_found m (find? (at_key (λ r. r.id) m.rowid) rows) (join_messages rows ms)

-- ORDER BY rank, m.ts DESC
unfoldable pub best_first : Joined → Joined → Bool
best_first a b =
    if a.found.rank == b.found.rank then ltb b.row.ts a.row.ts else ltb a.found.rank b.found.rank

-- LEFT JOIN chats, and the columns unpacked.
unfoldable pub to_hit : Db → Joined → SearchHit
to_hit db j = record {
  chat_jid = j.row.chat_jid;
  chat_name = elim (find_chat j.row.chat_jid db.chats) [ none ↦ "" | some c ↦ c.name ];
  message_id = j.row.id;
  wa_id = j.row.wa_id;
  ts = j.row.ts;
  sender_jid = text_or_empty j.row.sender_jid;
  snippet = j.found.snippet;
}

unfoldable pub scan_hits : Sqlite → List SearchHit → Exec (List SearchHit)
scan_hits d [] = do call d rows_end; pure []
scan_hits d (h ∷ hs) = do call d (scan h.message_id); rest ← scan_hits d hs; pure (h ∷ rest)

abbrev pub if_blank : {A : Type 0} → Runes → A → A → A
if_blank [] blank other = blank
if_blank (c ∷ s) blank other = other

-- `none` is the nil slice of an empty query.
module _ (matches : Runes → List FtsRow → List Match) where
  unfoldable pub search : Sqlite → Runes → ℤ → Exec (Option (List SearchHit))
  unfolding join_messages best_first to_hit scan_hits fts_phrase
  search d text n =
      let run : Exec (Option (List SearchHit)) = do
        refuse_if (is_nonpositive n) limit
        call d query
        hits ← gets (λ db. map (to_hit db) (
            take (to_ℕ n) (
              sort_by best_first
                (join_messages db.messages (matches (fts_phrase text) db.messages_fts)))))
        found ← scan_hits d hits
        pure (some found)
      in if_blank (trim_space text) (pure none) run

-- ORDER BY ts DESC
unfoldable pub later_first : MessageRow → MessageRow → Bool
later_first a b = ltb b.ts a.ts

unfoldable pub list_starred : Sqlite → ℤ → Exec (List Message)
unfolding scan_rows later_first scan_message
list_starred d n = do
  refuse_if (is_nonpositive n) limit
  call d query
  rows ← gets (λ db. take (to_ℕ n) (sort_by later_first (filter (λ r. r.starred == 1) db.messages)))
  out ← scan_rows d rows
  pure (map {A = Message} (λ m. record m { starred = true }) out)
