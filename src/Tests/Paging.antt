-- ===== src/Tests/Paging.antt =====
-- The theorems about pages at the small database.
use wachat.Prelude.{String, ◌≡◌, ◌≢◌, refl, ap, some, [], ◌∷◌, map, arith, text_iff, length, filter}
use wachat.Prelude.Int.{ℤ}
use wachat.Prelude.Sort.{sort_by, insert_by}
use wachat.Store.Exec.{ok}
use wachat.Store.Paging.{zero_cursor, scan_message, newest_first, page_around}
use wachat.Store.Paging.Order.{history}
use wachat.Store.Paging.Pages.{walk, page_of, walk-eq-history}
use wachat.Store.Paging.Around.{page_around-halves}
use wachat.Store.Messages.{to_row}
use wachat.Tests.Data.{memory, memory-Succeeds, three, three-IsSound, hello, world, writes}

alice_named : ◌≢◌ {A = String} "alice" ""
alice_named = ground (arith, text_iff "alice" "")

-- Two pages of one message each, and the empty page.
alice_history : history "alice" three ≡ to_row 2 world ∷ to_row 1 hello ∷ []
unfolding history writes newest_first sort_by insert_by filter
alice_history = refl

walk-eq-history_example :
    walk 3 memory "alice" zero_cursor (ℤ.pos 1) three
    ≡ some (map scan_message (history "alice" three))
walk-eq-history_example =
    walk-eq-history memory memory-Succeeds "alice" alice_named three 0 3 three-IsSound.well_formed
      (omega (arith, ap length alice_history))

page_around-halves_example :
    page_around memory "alice" (to_row 1 hello).id (ℤ.pos 25) (ℤ.pos 25) three
    ≡ (ok (page_of (to_row 2 world ∷ to_row 1 hello ∷ [])), three)
page_around-halves_example =
    page_around-halves "alice" three-IsSound.well_formed (to_row 2 world ∷ []) (to_row 1 hello) []
      alice_history memory memory-Succeeds alice_named 25 25
