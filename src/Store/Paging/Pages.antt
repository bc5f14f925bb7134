-- ===== src/Store/Paging/Pages.antt =====
-- What the pages hold: consecutive cuts of the chat's history.
use mathlib.Core.Path.{fun_ext, subst, ap₂}
use mathlib.Core.List.{append_assoc, map-append}
use wachat.Prelude.{
  ℕ, zero, suc, ◌<◌, String, ◌≡◌, ◌≢◌, sym, ap, refl, ◌∙◌, Bool, false, ◌&&◌, Option, none, some,
  List, [], ◌∷◌, ◌++◌, map, All, All-middle, filter, filter-and, take, drop, take-append-drop,
  length, get_last?-split, get_last?-map, length-drop-le, text_eq, beq_ne, arith,
}
use wachat.Prelude.Int.{ℤ}
use wachat.Prelude.Sort.{IsStrict, filter-sort_by, filter-after, filter-before}
use wachat.Prelude.Tables.{map_option}
use wachat.Store.Schema.{Message, MessageRow, Db, Sqlite, query, rows_end, scan}
use wachat.Store.Exec.{Result, ok, err, Succeeds}
use wachat.Store.WellFormed.{WellFormed}
use wachat.Store.Paging.{
  Cursor, zero_cursor, is_zero, scan_message, scan_rows, newest_first, is_older, is_newer, in_chat,
  select_page, query_messages, next_cursor, page_where, page_older,
}
use wachat.Store.Paging.Order.{newest_first-IsOrder, history, history-IsStrict, history-positive}

abbrev pub cursor_of : MessageRow → Cursor
cursor_of r = record { ts = r.ts; id = r.id }

abbrev pub page_of : List MessageRow → List Message × Cursor
page_of rows = (map scan_message rows, next_cursor (map scan_message rows))

-- A client that asks for page after page until it gets an empty one; `none` is a failure or no
-- fuel.
abbrev pub after_page :
    (Cursor → Option (List Message)) → Result (List Message × Cursor) → Option (List Message)
after_page more (err e) = none
after_page more (ok ([], next)) = some []
after_page more (ok (m ∷ ms, next)) = map_option (λ rest. m ∷ ms ++ rest) (more next)

unfoldable pub walk : ℕ → Sqlite → String → Cursor → ℤ → Db → Option (List Message)
walk zero d chat before n db = none
walk (suc fuel) d chat before n db =
    after_page (λ next. walk fuel d chat next n db) (page_older d chat before n db).0

is_older_lem : (x : MessageRow) → is_older x.ts x.id ≡ newest_first x
unfolding is_older newest_first
is_older_lem x = fun_ext λ r. ground arith

is_newer_lem : (x : MessageRow) → is_newer x.ts x.id ≡ (λ r. newest_first r x)
unfolding is_newer newest_first
is_newer_lem x = fun_ext λ r. ground arith

module _ (d : Sqlite) (s : Succeeds d) (db : Db) where
  scan_rows_ok : (rows : List MessageRow) → scan_rows d rows db ≡ (ok (map scan_message rows), db)
  unfolding scan_rows
  scan_rows_ok [] = rw (s rows_end)
  scan_rows_ok (r ∷ rs) = rw (s (scan r.id), scan_rows_ok rs)

  pub query_messages_ok :
      (p : MessageRow → Bool) (n : ℕ)
      → query_messages d p n db ≡ (ok (map scan_message (select_page p n db)), db)
  unfolding query_messages
  query_messages_ok p n = rw (s query, scan_rows_ok (select_page p n db))

module _ (chat : String) {db : Db} (w : WellFormed db) where
  select_page-and :
      (q : MessageRow → Bool) (n : ℕ)
      → select_page (λ r. in_chat chat r && q r) n db ≡ take n (filter q (history chat db))
  unfolding select_page history
  select_page-and q n =
      rw (filter-and (in_chat chat) q db.messages, filter-sort_by newest_first-IsOrder q) refl

  module _ (seen : List MessageRow) (x : MessageRow) (rest : List MessageRow)
      (cut : history chat db ≡ seen ++ x ∷ rest) where
    strict : IsStrict newest_first (seen ++ x ∷ rest)
    strict = subst (IsStrict newest_first) cut (history-IsStrict chat w)

    select_cut :
        (q p : MessageRow → Bool)
        → q ≡ p
        → (n : ℕ)
        → select_page (λ r. in_chat chat r && q r) n db ≡ take n (filter p (seen ++ x ∷ rest))
    select_cut q p e n = select_page-and q n ∙ ap₂ (λ f h. take n (filter f h)) e cut

    pub select_older :
        (n : ℕ) → select_page (λ r. in_chat chat r && is_older x.ts x.id r) n db ≡ take n rest
    select_older n =
        select_cut (is_older x.ts x.id) (newest_first x) (is_older_lem x) n
        ∙ ap (take n) (filter-after newest_first-IsOrder seen x rest strict)

    pub select_newer :
        (n : ℕ) → select_page (λ r. in_chat chat r && is_newer x.ts x.id r) n db ≡ take n seen
    select_newer n =
        select_cut (is_newer x.ts x.id) (λ r. newest_first r x) (is_newer_lem x) n
        ∙ ap (take n) (filter-before newest_first-IsOrder seen x rest strict)

    -- The cursor of a row is never the zero cursor, which starts from the newest message.
    pub is_zero-cursor_of : is_zero (cursor_of x) ≡ false
    unfolding is_zero
    is_zero-cursor_of =
        let p : 0 < x.id =
          All-middle (λ r. 0 < r.id) seen x rest
            (subst (All (λ r. 0 < r.id)) cut (history-positive chat w)) in
        ground arith

    page_where-cursor_of :
        page_where chat (cursor_of x) ≡ (λ r. in_chat chat r && is_older x.ts x.id r)
    unfolding page_where
    page_where-cursor_of = fun_ext λ r. rw is_zero-cursor_of

-- A page that is not empty ends at some row of the history, and its cursor is that row's.
page_end :
    (y : MessageRow) (ys : List MessageRow) (n : ℕ)
    → (init : List MessageRow) × (z : MessageRow) × (y ∷ ys ≡ init ++ z ∷ drop n ys)
      × (next_cursor (map scan_message (y ∷ take n ys)) ≡ cursor_of z)
unfolding next_cursor scan_message
page_end y ys n =
    let (init, z, ends, last) = get_last?-split y (take n ys) in
    let whole : y ∷ ys ≡ init ++ z ∷ drop n ys =
      ap (◌∷◌ y) (sym (take-append-drop n ys))
      ∙ ap (λ l. l ++ drop n ys) ends
      ∙ append_assoc init (z ∷ []) (drop n ys) in
    (init, z, whole, rw (get_last?-map scan_message (y ∷ take n ys) last, next_cursor) refl)

map_cut :
    (n : ℕ) (ys : List MessageRow)
    → map scan_message (take n ys) ++ map scan_message (drop n ys) ≡ map scan_message ys
map_cut n ys =
    sym (map-append scan_message (take n ys) (drop n ys))
    ∙ ap (map scan_message) (take-append-drop n ys)

module _ (d : Sqlite) (s : Succeeds d) (chat : String) (named : chat ≢ "") (db : Db) where
  page_older_ok :
      (before : Cursor) (n : ℕ)
      → page_older d chat before (ℤ.pos (suc n)) db
        ≡ (ok (page_of (select_page (page_where chat before) (suc n) db)), db)
  unfolding page_older
  page_older_ok before n =
      rw (beq_ne chat "" named, query_messages_ok d s db (page_where chat before) (suc n))

  select_first : (n : ℕ) → select_page (page_where chat zero_cursor) n db ≡ take n (history chat db)
  unfolding history select_page page_where is_zero
  select_first n = refl

  -- The first page is the head of the history.
  pub page_older-first :
      (n : ℕ)
      → page_older d chat zero_cursor (ℤ.pos (suc n)) db
        ≡ (ok (page_of (take (suc n) (history chat db))), db)
  page_older-first n =
      page_older_ok zero_cursor n ∙ ap (λ rows. (ok (page_of rows), db)) (select_first (suc n))

  -- With a driver that works, a chat with an id and a well-formed database: the page at the cursor
  -- of a row, for a positive limit, is the next part of the history behind that row, and the
  -- database is not changed.
  pub page_older-next :
      WellFormed db
      → (seen : List MessageRow) (x : MessageRow) (rest : List MessageRow)
      → history chat db ≡ seen ++ x ∷ rest
      → (n : ℕ)
      → page_older d chat (cursor_of x) (ℤ.pos (suc n)) db ≡ (ok (page_of (take (suc n) rest)), db)
  page_older-next w seen x rest cut n =
      page_older_ok (cursor_of x) n
      ∙ ap (λ rows. (ok (page_of rows), db))
          (ap (λ p. select_page p (suc n) db) (page_where-cursor_of chat w seen x rest cut)
            ∙ select_older chat w seen x rest cut (suc n))

  -- Paging on from a place in the history gives all that stands behind it, once each.
  walk_from :
      (n fuel : ℕ) (before : Cursor) (seen rest : List MessageRow)
      → WellFormed db
      → history chat db ≡ seen ++ rest
      → page_older d chat before (ℤ.pos (suc n)) db ≡ (ok (page_of (take (suc n) rest)), db)
      → length rest < fuel
      → walk fuel d chat before (ℤ.pos (suc n)) db ≡ some (map scan_message rest)
  unfolding walk
  walk_from n zero before seen rest w cut page enough = absurd (omega arith)
  walk_from n (suc fuel) before seen [] w cut page enough = rw (page, walk)
  walk_from n (suc fuel) before seen (y ∷ ys) w cut page enough =
      let (init, z, ends, next) = page_end y ys n in
      let cut' : history chat db ≡ (seen ++ init) ++ z ∷ drop n ys =
        cut ∙ ap (λ l. seen ++ l) ends ∙ sym (append_assoc seen init (z ∷ drop n ys)) in
      let rec =
        walk_from n fuel (cursor_of z) ((seen ++ init) ++ z ∷ []) (drop n ys) w
          (cut' ∙ sym (append_assoc (seen ++ init) (z ∷ []) (drop n ys)))
          (page_older-next w (seen ++ init) z (drop n ys) cut' n)
          (omega (arith, length-drop-le n ys)) in
      rw (page, walk) (rw (next, rec) (ap (λ l. some (scan_message y ∷ l)) (map_cut n ys)))

  -- With a driver that works, a chat with an id and a well-formed database: a client that pages by
  -- any positive limit until the first empty page gets the whole history of the chat, where its
  -- rounds are more than the messages. No message is skipped and none comes twice, also where
  -- messages share a millisecond.
  pub walk-eq-history :
      (n fuel : ℕ)
      → WellFormed db
      → length (history chat db) < fuel
      → walk fuel d chat zero_cursor (ℤ.pos (suc n)) db ≡ some (map scan_message (history chat db))
  walk-eq-history n fuel w enough =
      walk_from n fuel zero_cursor [] (history chat db) w refl (page_older-first n) enough
