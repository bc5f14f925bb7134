-- ===== src/Ui/Grouping.antt =====
-- internal/ui/grouping.go: runs of messages of one sender.
pub mod Runs
use wachat.Prelude.{
  ℕ, ◌-◌, Bool, true, false, not, ◌&&◌, List, [], ◌∷◌, ◌==◌, text_eq, ltb, leb, if◌then◌else◌,
}
use wachat.Store.Schema.{Message}

pub data GroupPosition : Type 0 where
  solo head middle tail : GroupPosition

abbrev gap : ℕ → ℕ → ℕ
gap a b = if ltb a b then b - a else a - b

unfoldable pub same_group : ℕ → Message → Message → Bool
same_group win_ms a b = if a.sender_jid == b.sender_jid then leb (gap a.ts b.ts) win_ms else false

unfoldable pub position : Bool → Bool → GroupPosition
position false false = solo
position false true = head
position true true = middle
position true false = tail

-- `i+1 < len(msgs) && sameGroup(msgs[i], msgs[i+1])`
abbrev pub has_above : ℕ → Message → List Message → Bool
has_above win_ms m [] = false
has_above win_ms m (older ∷ ms) = same_group win_ms m older

-- The loop from `i` on; `has_below` compares with `msgs[i-1]`.
unfoldable pub group_from : ℕ → Bool → List Message → List GroupPosition
unfolding same_group position
group_from win_ms has_below [] = []
group_from win_ms has_below (m ∷ []) = position false has_below ∷ []
group_from win_ms has_below (m ∷ older ∷ ms) =
    position (same_group win_ms m older) has_below
    ∷ group_from win_ms (same_group win_ms older m) (older ∷ ms)

unfoldable pub group_messages : List Message → ℕ → List GroupPosition
unfolding group_from
group_messages msgs win_ms = group_from win_ms false msgs
