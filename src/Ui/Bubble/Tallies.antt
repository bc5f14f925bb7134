-- ===== src/Ui/Bubble/Tallies.antt =====
-- The summary of the reactions: its counts and its order.
use wachat.Prelude.{
  ℕ, ◌+◌, ◌≡◌, String, false, List, [], ◌∷◌, ◌==◌, nat_eq, text_eq, filter, length, if◌then◌else◌,
}
use wachat.Store.Schema.{Reaction}
use wachat.Ui.Bubble.{Tally}

-- What the tallies of an emoji count.
unfoldable pub count_in : String → List Tally → ℕ
count_in e [] = 0
count_in e (t ∷ ts) = let rest = count_in e ts in if t.emoji == e then t.count + rest else rest

-- The reactions with an emoji.
abbrev pub count_of : String → List Reaction → ℕ
count_of e rs = length (filter (λ r. r.emoji == e) rs)

abbrev pub IsOtherEmoji : Tally → Tally → Type 0
IsOtherEmoji a b = (a.emoji == b.emoji) ≡ false

-- The reactions that are counted under an emoji: none under the empty one.
abbrev pub counted : String → List Reaction → ℕ
counted e rs = if e == "" then 0 else count_of e rs
