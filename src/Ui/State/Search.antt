-- ===== src/Ui/State/Search.antt =====
-- The search of internal/ui/state.go: the results that the overlay shows; `none` is no active
-- search.
use wachat.Prelude.{ℕ, Option, none, List, [], ◌∷◌, Runes, trim_space}
use wachat.Prelude.Int.{pos}
use wachat.Store.Schema.{FtsRow, Sqlite}
use wachat.Store.Exec.{Exec, pure}
use wachat.Store.Search.{Match, SearchHit, search}

abbrev pub search_limit : ℕ
search_limit = 100

-- The results that replace the old ones; on an error the old ones stay.
module _ (matches : Runes → List FtsRow → List Match) where
  unfoldable pub search_results : Sqlite → Runes → Exec (Option (List SearchHit))
  search_results d query = elim (trim_space query) [
    | [] ↦ pure none
    | c ∷ q ↦ search matches d (c ∷ q) (pos search_limit)
  ]
