-- ===== src/Ui/State/ChatList.antt =====
-- The chat list of the view-model: the upsert of a summary and the sort by time.
use wachat.Prelude.{
  ℕ, ◌+◌, ◌≡◌, refl, String, Bool, true, false, not, ◌&&◌, ◌||◌, Option, none, some, List, [], ◌∷◌,
  ◌==◌, text_eq, text_iff, nat_eq, max, any, find?, arith, if◌then◌else◌,
}
use wachat.Prelude.Sort.{sort_by, insert_by}
use wachat.Prelude.Tables.{at_key}
use wachat.Wa.Extract.{MessageEvent}
use wachat.Ui.State.{ChatSummary, upsert_chat_summary, bump_summary, newer_first}

abbrev pub find_summary : String → List ChatSummary → Option ChatSummary
find_summary j = find? (at_key (λ c. c.jid) j)

unfoldable pub distinct_jids : List ChatSummary → Bool
distinct_jids [] = true
distinct_jids (c ∷ cs) = not (any (at_key (λ x. x.jid) c.jid) cs) && distinct_jids cs

abbrev pub unread_in : Option ChatSummary → ℕ
unread_in none = 0
unread_in (some c) = c.unread

abbrev pub last_ts_in : Option ChatSummary → ℕ
last_ts_in none = 0
last_ts_in (some c) = c.last_ts

-- The counts of a chat after the upsert.
abbrev pub IsCounted : MessageEvent → String → List ChatSummary → List ChatSummary → Type 0
IsCounted ev j before after =
    (unread_in (find_summary j after)
      ≡ unread_in (find_summary j before) + (if ev.chat_jid == j && not ev.from_me then 1 else 0))
    × (last_ts_in (find_summary j after) ≡ (
        if ev.chat_jid == j
        then max (last_ts_in (find_summary j before)) ev.ts
        else last_ts_in (find_summary j before)))

pub upsert_chat_summary-IsCounted :
    (ev : MessageEvent) (cs : List ChatSummary) (j : String)
    → IsCounted ev j cs (upsert_chat_summary ev cs)
unfolding upsert_chat_summary bump_summary find?
upsert_chat_summary-IsCounted ev [] j = ground arith
upsert_chat_summary-IsCounted ev (c ∷ cs) j = ground (
  arith,
  upsert_chat_summary-IsCounted ev cs j,
  text_iff c.jid ev.chat_jid,
  text_iff c.jid j,
  text_iff ev.chat_jid j,
)

any-upsert_chat_summary :
    (ev : MessageEvent) (cs : List ChatSummary) (j : String)
    → any (at_key (λ c. c.jid) j) (upsert_chat_summary ev cs)
      ≡ (ev.chat_jid == j || any (at_key (λ c. c.jid) j) cs)
unfolding upsert_chat_summary bump_summary any
any-upsert_chat_summary ev [] j = ground arith
any-upsert_chat_summary ev (c ∷ cs) j = ground (
  arith,
  any-upsert_chat_summary ev cs j,
  text_iff c.jid ev.chat_jid,
  text_iff c.jid j,
  text_iff ev.chat_jid j,
)

pub distinct_jids-upsert_chat_summary :
    (ev : MessageEvent) (cs : List ChatSummary)
    → distinct_jids cs ≡ true
    → distinct_jids (upsert_chat_summary ev cs) ≡ true
unfolding upsert_chat_summary bump_summary distinct_jids any
distinct_jids-upsert_chat_summary ev [] h = refl
distinct_jids-upsert_chat_summary ev (c ∷ cs) h = ground (
  arith,
  distinct_jids-upsert_chat_summary ev cs,
  any-upsert_chat_summary ev cs c.jid,
  text_iff c.jid ev.chat_jid,
  text_iff ev.chat_jid c.jid,
)

any-insert_by :
    (p : ChatSummary → Bool) (x : ChatSummary) (ys : List ChatSummary)
    → any p (insert_by newer_first x ys) ≡ (p x || any p ys)
unfolding insert_by any
any-insert_by p x [] = refl
any-insert_by p x (y ∷ ys) = ground (arith, any-insert_by p x ys)

any-sort_by :
    (p : ChatSummary → Bool) (cs : List ChatSummary) → any p (sort_by newer_first cs) ≡ any p cs
unfolding sort_by any
any-sort_by p [] = refl
any-sort_by p (c ∷ cs) =
    ground (arith, any-insert_by p c (sort_by newer_first cs), any-sort_by p cs)

find_summary-insert_by :
    (x : ChatSummary) (ys : List ChatSummary) (j : String)
    → any (at_key (λ c. c.jid) x.jid) ys ≡ false
    → find_summary j (insert_by newer_first x ys)
      ≡ (if x.jid == j then some x else find_summary j ys)
unfolding insert_by any find?
find_summary-insert_by x [] j h = refl
find_summary-insert_by x (y ∷ ys) j h =
    ground (
      arith,
      find_summary-insert_by x ys j,
      text_iff y.jid x.jid,
      text_iff x.jid j,
      text_iff y.jid j,
    )

pub find_summary-sort_by :
    (cs : List ChatSummary) (j : String)
    → distinct_jids cs ≡ true
    → find_summary j (sort_by newer_first cs) ≡ find_summary j cs
unfolding sort_by find? distinct_jids
find_summary-sort_by [] j h = refl
find_summary-sort_by (c ∷ cs) j h = ground (
  arith,
  find_summary-sort_by cs j,
  find_summary-insert_by c (sort_by newer_first cs) j,
  any-sort_by (at_key (λ x. x.jid) c.jid) cs,
)

distinct_jids-insert_by :
    (x : ChatSummary) (ys : List ChatSummary)
    → any (at_key (λ c. c.jid) x.jid) ys ≡ false
    → distinct_jids ys ≡ true
    → distinct_jids (insert_by newer_first x ys) ≡ true
unfolding insert_by any distinct_jids
distinct_jids-insert_by x [] h d = refl
distinct_jids-insert_by x (y ∷ ys) h d = ground (
  arith,
  distinct_jids-insert_by x ys,
  any-insert_by (at_key (λ c. c.jid) y.jid) x ys,
  text_iff y.jid x.jid,
  text_iff x.jid y.jid,
)

pub distinct_jids-sort_by :
    (cs : List ChatSummary)
    → distinct_jids cs ≡ true
    → distinct_jids (sort_by newer_first cs) ≡ true
unfolding sort_by distinct_jids
distinct_jids-sort_by [] h = refl
distinct_jids-sort_by (c ∷ cs) h = ground (
  arith,
  distinct_jids-sort_by cs,
  distinct_jids-insert_by c (sort_by newer_first cs),
  any-sort_by (at_key (λ x. x.jid) c.jid) cs,
)
