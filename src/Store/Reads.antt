-- ===== src/Store/Reads.antt =====
-- The queries of internal/store write nothing, whatever fails.
use wachat.Prelude.{
  ℕ, String, ◌≡◌, refl, Bool, inl, inr, List, [], ◌∷◌, nat_eq, text_eq, ◌&&◌, Runes, map, take,
  arith,
}
use wachat.Prelude.Int.{ℤ, to_ℕ}
use wachat.Prelude.Sort.{sort_by}
use wachat.Store.Schema.{MessageRow, FtsRow, Db, Sqlite}
use wachat.Store.Exec.{Exec, Result-cases}
use wachat.Store.Paging.{
  Cursor, scan_rows, query_messages, select_page, in_chat, page_older, find_anchor, page_around,
  page_where, is_newer, is_older,
}
use wachat.Store.Reactions.{reactions_for_chat}
use wachat.Store.Search.{
  Match, SearchHit, scan_hits, search, join_messages, fts_phrase, best_first, to_hit,
}

abbrev pub Reads : {A : Type 0} → Exec A → Type 0
Reads m = (db : Db) → (m db).1 ≡ db

module _ (d : Sqlite) where
  scan_rows-Reads : (rs : List MessageRow) → Reads (scan_rows d rs)
  unfolding scan_rows
  scan_rows-Reads [] db = ground arith
  scan_rows-Reads (r ∷ rs) db = ground (arith, scan_rows-Reads rs db)

  query_messages-Reads : (p : MessageRow → Bool) (n : ℕ) → Reads (query_messages d p n)
  unfolding query_messages
  query_messages-Reads p n db = ground (arith, scan_rows-Reads (select_page p n db) db)

  pub page_older-Reads :
      (chat : String) (before : Cursor) (n : ℤ) → Reads (page_older d chat before n)
  unfolding page_older
  page_older-Reads chat before n db =
      ground (arith, query_messages-Reads (page_where chat before) (to_ℕ n) db)

  find_anchor-Reads : (chat : String) (i : ℕ) → Reads (find_anchor d chat i)
  unfolding find_anchor
  find_anchor-Reads chat i db = ground arith

  pub page_around-Reads :
      (chat : String) (i : ℕ) (before after : ℤ) → Reads (page_around d chat i before after)
  unfolding page_around
  page_around-Reads chat i before after db = elim (Result-cases (find_anchor d chat i db).0) [
    | inr (e, failed) ↦ ground (arith, failed, find_anchor-Reads chat i db)
    | inl (anchor, found) ↦
        let newer : MessageRow → Bool = λ r. in_chat chat r && is_newer anchor.ts anchor.id r in
        let older : MessageRow → Bool = λ r. in_chat chat r && is_older anchor.ts anchor.id r in
        ground (
          arith,
          found,
          find_anchor-Reads chat i db,
          query_messages-Reads newer (to_ℕ after) (find_anchor d chat i db).1,
          query_messages-Reads older (to_ℕ before)
              (query_messages d newer (to_ℕ after) (find_anchor d chat i db).1).1,
        )
  ]

  pub reactions_for_chat-Reads : (ws : List String) → Reads (reactions_for_chat d ws)
  unfolding reactions_for_chat
  reactions_for_chat-Reads [] db = refl
  reactions_for_chat-Reads (w ∷ ws) db = ground arith

  scan_hits-Reads : (hs : List SearchHit) → Reads (scan_hits d hs)
  unfolding scan_hits
  scan_hits-Reads [] db = ground arith
  scan_hits-Reads (h ∷ hs) db = ground (arith, scan_hits-Reads hs db)

  pub search-Reads :
      (matches : Runes → List FtsRow → List Match) (text : Runes) (n : ℤ)
      → Reads (search matches d text n)
  unfolding search
  search-Reads matches text n db =
      let joined = join_messages db.messages (matches (fts_phrase text) db.messages_fts) in
      let hits = map (to_hit db) (take (to_ℕ n) (sort_by best_first joined)) in
      ground (arith, scan_hits-Reads hits db)
