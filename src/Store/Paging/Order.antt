-- ===== src/Store/Paging/Order.antt =====
-- The keyset order is a strict order on the rows of a well-formed database.
use wachat.Prelude.{
  ◌<◌, String, ◌≡◌, ◌≢◌, sym, true, false, List, All, Pairs, All-filter, Pairs-filter, Pairs-map,
  Pairs-and, filter, arith,
}
use wachat.Prelude.Sort.{IsOrder, IsStrict, sort_by, sort_by-Pairs, sort_by-All, sort_by-IsSorted}
use wachat.Store.Schema.{MessageRow, Db}
use wachat.Store.WellFormed.{WellFormed, IsRowidOrder}
use wachat.Store.Paging.{newest_first, in_chat}

pub newest_first-IsOrder : IsOrder newest_first
unfolding newest_first
newest_first-IsOrder = record { asym = λ a b h. ground arith; trans = λ a b c h k. ground arith }

-- Rows with different rowids are never level in the order.
abbrev pub HasOtherId : MessageRow → MessageRow → Type 0
HasOtherId a b = a.id ≢ b.id

newest_first_total :
    (a b : MessageRow) → HasOtherId a b → newest_first b a ≡ false → newest_first a b ≡ true
unfolding newest_first
newest_first_total a b ne h = ground arith

-- The rows of a chat, newest first: what a user would see with every page loaded.
unfoldable pub history : String → Db → List MessageRow
history chat db = sort_by newest_first (filter (in_chat chat) db.messages)

module _ (chat : String) {db : Db} (w : WellFormed db) where
  pub history_other_ids : Pairs HasOtherId (history chat db)
  unfolding history
  history_other_ids =
      sort_by-Pairs newest_first HasOtherId (λ a b ne e. ne (sym e))
        (filter (in_chat chat) db.messages)
        (Pairs-filter HasOtherId (in_chat chat) db.messages
          (Pairs-map IsRowidOrder HasOtherId (λ a b h. omega arith) db.messages w.rowids))

  pub history-IsStrict : IsStrict newest_first (history chat db)
  history-IsStrict =
      Pairs-map _ (λ a b. newest_first a b ≡ true) (λ a b h. newest_first_total a b h.0 h.1) _
        (Pairs-and HasOtherId (λ a b. newest_first b a ≡ false) _ history_other_ids
          (unfold history in sort_by-IsSorted newest_first-IsOrder _))

  pub history-positive : All (λ r. 0 < r.id) (history chat db)
  unfolding history
  history-positive =
      sort_by-All newest_first (λ r. 0 < r.id) _
        (All-filter (λ r. 0 < r.id) (in_chat chat) db.messages w.positive)
