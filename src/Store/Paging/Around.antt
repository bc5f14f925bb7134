-- ===== src/Store/Paging/Around.antt =====
-- The window around an anchor.
use mathlib.Core.List.{map-append}
use wachat.Prelude.{
  ℕ, String, ◌≡◌, ◌≢◌, sym, ap, refl, ◌∙◌, subst, Bool, ◌&&◌, some, List, [], ◌∷◌, ◌++◌, All, Pairs,
  filter, filter-and, find?, find?-filter_head, take, head?, ◌==◌, nat_eq, text_eq, beq_ne,
  beq_self, All-middle, arith, fun_ext,
}
use wachat.Prelude.Int.{ℤ}
use wachat.Prelude.Sort.{sort_by, filter-sort_by, sort_by-eq_singleton}
use wachat.Store.Schema.{MessageRow, Db, Sqlite, query, scan}
use wachat.Store.Exec.{ok, Succeeds}
use wachat.Store.WellFormed.{WellFormed}
use wachat.Store.Paging.{
  scan_message, newest_first, is_older, is_newer, in_chat, find_anchor, page_around,
}
use wachat.Store.Paging.Order.{newest_first-IsOrder, history, HasOtherId, history_other_ids}
use wachat.Store.Paging.Pages.{page_of, query_messages_ok, select_older, select_newer}

abbrev has_id : ℕ → MessageRow → Bool
has_id i r = r.id == i

filter-has_id_none :
    (x : MessageRow) (ys : List MessageRow) → All (HasOtherId x) ys → filter (has_id x.id) ys ≡ []
unfolding filter
filter-has_id_none x [] h = refl
filter-has_id_none x (y ∷ ys) h =
    rw (beq_ne y.id x.id (λ e. h.0 (sym e))) (filter-has_id_none x ys h.1)

filter-has_id :
    (xs : List MessageRow) (x : MessageRow) (ys : List MessageRow)
    → Pairs HasOtherId (xs ++ x ∷ ys)
    → filter (has_id x.id) (xs ++ x ∷ ys) ≡ x ∷ []
unfolding filter
filter-has_id [] x ys h = rw (beq_self x.id) (ap (◌∷◌ x) (filter-has_id_none x ys h.0))
filter-has_id (z ∷ xs) x ys h =
    rw (beq_ne z.id x.id (All-middle (HasOtherId z) xs x ys h.0)) (filter-has_id xs x ys h.1)

module _ (chat : String) {db : Db} (w : WellFormed db) (newer : List MessageRow) (x : MessageRow)
    (older : List MessageRow) (cut : history chat db ≡ newer ++ x ∷ older) where
  swap_tests :
      (rows : List MessageRow)
      → filter (λ r. has_id x.id r && in_chat chat r) rows
        ≡ filter (λ r. in_chat chat r && has_id x.id r) rows
  swap_tests rows = ap (λ p. filter p rows) (fun_ext λ r. ground arith)

  find_row : find? (λ r. has_id x.id r && in_chat chat r) db.messages ≡ some x
  unfolding history
  find_row =
      let one : sort_by newest_first (filter (has_id x.id) (filter (in_chat chat) db.messages))
          ≡ x ∷ [] =
        sym (filter-sort_by newest_first-IsOrder (has_id x.id) (filter (in_chat chat) db.messages))
        ∙ ap (filter (has_id x.id)) cut
        ∙ filter-has_id newer x older (subst (Pairs HasOtherId) cut (history_other_ids chat w)) in
      find?-filter_head (λ r. has_id x.id r && in_chat chat r) db.messages
      ∙ ap head? (
          swap_tests db.messages
          ∙ filter-and (in_chat chat) (has_id x.id) db.messages
          ∙ sort_by-eq_singleton newest_first-IsOrder _ x one)

  module _ (d : Sqlite) (s : Succeeds d) (named : chat ≢ "") where
    find_anchor_ok : find_anchor d chat x.id db ≡ (ok (scan_message x), db)
    unfolding find_anchor
    find_anchor_ok = rw (s query, find_row, s (scan x.id))

    -- With a driver that works, a chat with an id, a well-formed database and an anchor in the
    -- chat's history, for window sides that are not negative: the window is the anchor with the
    -- `before` messages next to it on the older side, and with the `after` NEWEST messages of the
    -- chat on the newer side.
    pub page_around-halves :
        (before after : ℕ)
        → page_around d chat x.id (ℤ.pos before) (ℤ.pos after) db
          ≡ (ok (page_of (take after newer ++ x ∷ take before older)), db)
    unfolding page_around scan_message
    page_around-halves before after =
        rw
          (
            beq_ne chat "" named,
            find_anchor_ok,
            query_messages_ok d s db (λ r. in_chat chat r && is_newer x.ts x.id r) after,
            query_messages_ok d s db (λ r. in_chat chat r && is_older x.ts x.id r) before,
            select_newer chat w newer x older cut after,
            select_older chat w newer x older cut before,
            map-append scan_message (take after newer) (x ∷ take before older),
          )
          refl
