-- ===== src/Ui/Grouping/Runs.antt =====
-- The positions of neighbours agree.
use wachat.Prelude.{
  ℕ, ◌≡◌, sym, subst, ◌∙◌, Bool, true, false, ◌&&◌, ◌+◌, ◌==◌, leb, List, [], ◌∷◌, text_eq,
  text_iff, arith,
}
use wachat.Store.Schema.{Message}
use wachat.Ui.Grouping.{
  GroupPosition, solo, head, middle, tail, same_group, position, group_from, group_messages,
}

-- A position that says that the run goes on above, and below.
abbrev pub joins_above : GroupPosition → Bool
joins_above solo = false
joins_above head = false
joins_above middle = true
joins_above tail = true

abbrev pub joins_below : GroupPosition → Bool
joins_below solo = false
joins_below head = true
joins_below middle = true
joins_below tail = false

-- Two messages have the same sender, and neither is later than the other by more than the window.
abbrev pub together : ℕ → Message → Message → Bool
together win_ms m o =
    m.sender_jid == o.sender_jid && leb m.ts (o.ts + win_ms) && leb o.ts (m.ts + win_ms)

-- Positions and messages, newest first: each joins below exactly what the newer neighbour, if there
-- is one, joins above, which is whether the two are together; the oldest joins nothing above.
abbrev pub IsRuns : ℕ → Bool → List Message → List GroupPosition → Type 0
IsRuns win_ms below [] [] = Unit
IsRuns win_ms below [] (g ∷ gs) = ⊥
IsRuns win_ms below (m ∷ ms) [] = ⊥
IsRuns win_ms below (m ∷ []) (g ∷ gs) =
    (joins_below g ≡ below) × (joins_above g ≡ false) × IsRuns win_ms false [] gs
IsRuns win_ms below (m ∷ o ∷ ms) (g ∷ gs) =
    (joins_below g ≡ below)
    × (joins_above g ≡ together win_ms m o)
    × IsRuns win_ms (joins_above g) (o ∷ ms) gs

same_group_lem : (win_ms : ℕ) (a b : Message) → same_group win_ms a b ≡ together win_ms a b
unfolding same_group
same_group_lem win_ms a b = ground (arith, text_iff a.sender_jid b.sender_jid)

same_group_sym : (win_ms : ℕ) (a b : Message) → same_group win_ms a b ≡ same_group win_ms b a
unfolding same_group
same_group_sym win_ms a b =
    ground (arith, text_iff a.sender_jid b.sender_jid, text_iff b.sender_jid a.sender_jid)

joins_below-position : (above below : Bool) → joins_below (position above below) ≡ below
unfolding position
joins_below-position above below = ground arith

joins_above-position : (above below : Bool) → joins_above (position above below) ≡ above
unfolding position
joins_above-position above below = ground arith

group_from-IsRuns :
    (win_ms : ℕ) (below : Bool) (ms : List Message)
    → IsRuns win_ms below ms (group_from win_ms below ms)
unfolding group_from
group_from-IsRuns win_ms below [] = tt
group_from-IsRuns win_ms below (m ∷ []) =
    (joins_below-position false below, joins_above-position false below, tt)
group_from-IsRuns win_ms below (m ∷ o ∷ ms) =
    let rest = group_from-IsRuns win_ms (same_group win_ms o m) (o ∷ ms) in
    (
      joins_below-position (same_group win_ms m o) below,
      joins_above-position (same_group win_ms m o) below ∙ same_group_lem win_ms m o,
      subst (λ b. IsRuns win_ms b (o ∷ ms) (group_from win_ms (same_group win_ms o m) (o ∷ ms)))
          (same_group_sym win_ms o m ∙ sym (joins_above-position (same_group win_ms m o) below))
          rest,
    )

-- GroupMessages gives each message one position, and neighbours agree: a message joins the older
-- one above exactly if the older one joins it below, which is so exactly if they have the same
-- sender and their times differ by at most the window. The newest joins nothing below, the oldest
-- nothing above.
pub group_messages-IsRuns :
    (msgs : List Message) (win_ms : ℕ) → IsRuns win_ms false msgs (group_messages msgs win_ms)
unfolding group_messages
group_messages-IsRuns msgs win_ms = group_from-IsRuns win_ms false msgs
