-- ===== src/Store/Reactions.antt =====
-- internal/store/reactions.go: at most one reaction of a sender on a message.
use wachat.Prelude.{
  ℕ, String, Bool, ◌&&◌, ◌||◌, not, Option, none, some, ◌++◌, List, [], ◌∷◌, ◌==◌, text_eq, ltb,
  if◌then◌else◌, filter, any,
}
use wachat.Prelude.Sort.{sort_by}
use wachat.Prelude.Tables.{upsert_where, at_key}
use wachat.Store.Schema.{Reaction, Sqlite, query, rows_end, exec}
use wachat.Store.Exec.{
  Exec, target_and_sender, wa_id, pure, modify, gets, call, refuse_if, ◌>>=◌, ◌>>◌,
}

-- PRIMARY KEY (target_waid, sender_jid)
abbrev pub is_by : String → String → Reaction → Bool
is_by target sender r = r.target_waid == target && r.sender_jid == sender

unfoldable pub put_reaction : Reaction → List Reaction → List Reaction
put_reaction new =
    upsert_where (is_by new.target_waid new.sender_jid) new
      (λ r. record r { emoji = new.emoji; ts = new.ts })

unfoldable pub set_reaction : Sqlite → String → String → String → ℕ → Exec (Unit {0})
unfolding put_reaction
set_reaction d target sender emoji ts = do
  refuse_if (target == "" || sender == "") target_and_sender
  call d exec
  modify (λ db. record db {
    reactions =
        if emoji == ""
        then filter (λ r. not (is_by target sender r)) db.reactions
        else put_reaction
            (record { target_waid = target; sender_jid = sender; emoji = emoji; ts = ts })
            db.reactions;
  })

-- ORDER BY ts ASC
unfoldable pub oldest_first : Reaction → Reaction → Bool
oldest_first a b = ltb a.ts b.ts

unfoldable pub list_reactions : Sqlite → String → Exec (List Reaction)
unfolding oldest_first
list_reactions d target = do
  refuse_if (target == "") wa_id
  call d query
  rows ← gets (λ db. sort_by oldest_first (filter (λ r. r.target_waid == target) db.reactions))
  call d rows_end
  pure rows

-- A group of the map that ReactionsForChat returns.
pub record Group : Type 0 where
  pub target_waid : String
  pub items : List Reaction

-- `out[r.TargetWAID] = append(out[r.TargetWAID], r)`
unfoldable pub add_to_group : Reaction → List Group → List Group
add_to_group r =
    upsert_where (at_key (λ g. g.target_waid) r.target_waid)
      (record { target_waid = r.target_waid; items = r ∷ [] })
      (λ g. record g { items = g.items ++ r ∷ [] })

unfoldable pub group_all : List Reaction → List Group → List Group
unfolding add_to_group
group_all [] out = out
group_all (r ∷ rs) out = group_all rs (add_to_group r out)

-- `none` is the nil map.
unfoldable pub reactions_for_chat : Sqlite → List String → Exec (Option (List Group))
unfolding group_all oldest_first
reactions_for_chat d [] = pure none
reactions_for_chat d (w ∷ ws) = do
  call d query
  rows ← gets (λ db.
      sort_by oldest_first (filter (λ r. any (λ t. r.target_waid == t) (w ∷ ws)) db.reactions))
  call d rows_end
  pure (some (group_all rows []))
