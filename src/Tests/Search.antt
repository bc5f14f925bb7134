-- ===== src/Tests/Search.antt =====
-- A search that finds two stored messages.
use wachat.Prelude.{List, [], ◌∷◌, Runes}
use wachat.Store.Schema.{FtsRow}
use wachat.Store.Search.{Match}

abbrev second_and_first : Runes → List FtsRow → List Match
second_and_first phrase rows =
    record { rowid = 1; rank = 5; snippet = "[[hi]]" }
    ∷ record { rowid = 2; rank = 3; snippet = "[[hi]]" }
    ∷ []

abbrev greeted : Runes
greeted = 104 ∷ 105 ∷ []
