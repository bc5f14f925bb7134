-- ===== src/Store/Batch/Latest.antt =====
-- The last time of each chat in a batch: a row advanced step by step is advanced once to the
-- latest.
use wachat.Prelude.{
  ℕ, ◌≡◌, refl, String, Bool, ◌&&◌, not, Option, none, some, List, [], ◌∷◌, ◌==◌, text_eq, text_iff,
  ltb, max, any, update_where, arith, if◌then◌else◌, Bool-cases, inl, inr,
}
use wachat.Prelude.Tables.{at_key, apply_or, upsert_where, find?-upsert_where}
use wachat.Store.Schema.{Message, ChatRow, find_chat}
use wachat.Store.Messages.{later, new_chat}
use wachat.Store.Batch.{LastTs, is_skipped, note_ts, advance_chat}
use wachat.Store.Batch.Run.{noted, advance_all}

abbrev pub join_ts : Option ℕ → Option ℕ → Option ℕ
join_ts none y = y
join_ts (some a) none = some a
join_ts (some a) (some b) = some (max a b)

abbrev pub only_if : Bool → ℕ → Option ℕ
only_if b ts = if b then some ts else none

unfoldable pub latest_in : String → List LastTs → Option ℕ
latest_in j [] = none
latest_in j (e ∷ es) = join_ts (only_if (e.jid == j) e.ts) (latest_in j es)

-- The latest time of a chat among the messages that are not skipped.
unfoldable pub latest_of : String → List Message → Option ℕ
latest_of j [] = none
latest_of j (m ∷ ms) =
    join_ts (only_if (not (is_skipped m) && m.chat_jid == j) m.ts) (latest_of j ms)

-- A chat row, made if it is missing, whose time is advanced.
abbrev pub advanced : String → Option ℕ → Option ChatRow → Option ChatRow
advanced j none o = o
advanced j (some ts) o =
    some (
      apply_or (new_chat j "" (some ts) 0) (λ c. record c { last_ts = some (later c.last_ts ts) })
        o)

pub advanced_twice :
    (j : String) (x y : Option ℕ) (o : Option ChatRow)
    → advanced j y (advanced j x o) ≡ advanced j (join_ts x y) o
advanced_twice j x y o = ground arith

find_chat-advance_chat :
    (k j : String) (ts : ℕ) (chats : List ChatRow)
    → find_chat j (advance_chat k ts chats) ≡ advanced j (only_if (k == j) ts) (find_chat j chats)
unfolding advance_chat
find_chat-advance_chat k j ts chats = ground (
  arith,
  find?-upsert_where (λ c. c.jid) (λ c. record c { last_ts = some (later c.last_ts ts) })
      (λ c. refl) (new_chat k "" (some ts) 0) k refl j chats,
  text_iff k j,
)

pub find_chat-advance_all :
    (j : String) (es : List LastTs) (chats : List ChatRow)
    → find_chat j (advance_all es chats) ≡ advanced j (latest_in j es) (find_chat j chats)
unfolding advance_all latest_in
find_chat-advance_all j [] chats = refl
find_chat-advance_all j (e ∷ es) chats =
    rw
      (
        find_chat-advance_all j es (advance_chat e.jid e.ts chats),
        find_chat-advance_chat e.jid j e.ts chats,
      )
      (advanced_twice j (only_if (e.jid == j) e.ts) (latest_in j es) (find_chat j chats))

join_ts_assoc : (x y z : Option ℕ) → join_ts (join_ts x y) z ≡ join_ts x (join_ts y z)
join_ts_assoc x y z = ground arith

join_ts_comm : (x y : Option ℕ) → join_ts x y ≡ join_ts y x
join_ts_comm x y = ground arith

-- `note_ts` without its upsert.
abbrev later_entry : ℕ → LastTs → LastTs
later_entry ts e = if ltb e.ts ts then record e { ts = ts } else e

later_entry_ts : (ts : ℕ) (e : LastTs) → (later_entry ts e).ts ≡ max e.ts ts
later_entry_ts ts e = ground arith

later_entry_jid : (ts : ℕ) (e : LastTs) → (later_entry ts e).jid ≡ e.jid
later_entry_jid ts e = ground arith

join_own :
    (b any : Bool) (x t : ℕ) (l : Option ℕ)
    → join_ts (only_if b (max x t)) (if any then join_ts l (only_if b t) else l)
      ≡ join_ts (join_ts (only_if b x) l) (only_if b t)
join_own b any x t none = ground arith
join_own b any x t (some l) = ground arith

join_other :
    (any : Bool) (a l t : Option ℕ)
    → join_ts a (if any then join_ts l t else l)
      ≡ (if any then join_ts (join_ts a l) t else join_ts a l)
join_other any a l none = ground arith
join_other any a l (some t) = ground arith

-- The upsert of `note_ts` joins the time to that of its chat.
latest_in-update_where :
    (k j : String) (ts : ℕ) (es : List LastTs)
    → latest_in j (update_where (at_key (λ e. e.jid) k) (later_entry ts) es) ≡ (
        if any (at_key (λ e. e.jid) k) es
        then join_ts (latest_in j es) (only_if (k == j) ts)
        else latest_in j es)
unfolding latest_in update_where any
latest_in-update_where k j ts [] = refl
latest_in-update_where k j ts (e ∷ es) = elim (Bool-cases (e.jid == k)) [
  | inl own ↦
      rw
        (
          own,
          later_entry_ts ts e,
          later_entry_jid ts e,
          (text_iff e.jid k).0 own,
          latest_in-update_where k j ts es,
        )
        (join_own (k == j) (any (at_key (λ e. e.jid) k) es) e.ts ts (latest_in j es))
  | inr other ↦
      rw (other, latest_in-update_where k j ts es)
        (join_other (any (at_key (λ e. e.jid) k) es) (only_if (e.jid == j) e.ts) (latest_in j es)
          (only_if (k == j) ts))
]

join_fresh :
    (k j : String) (ts : ℕ) (l : Option ℕ)
    → join_ts (only_if (k == j) ts) l ≡ join_ts l (only_if (k == j) ts)
join_fresh k j ts l = ground arith

latest_in-note_ts :
    (j : String) (m : Message) (seen : List LastTs)
    → latest_in j (note_ts m seen) ≡ join_ts (latest_in j seen) (only_if (m.chat_jid == j) m.ts)
unfolding note_ts upsert_where latest_in
latest_in-note_ts j m seen = elim (Bool-cases (any (at_key (λ e. e.jid) m.chat_jid) seen)) [
  | inl old ↦ rw old (rw old at (latest_in-update_where m.chat_jid j m.ts seen))
  | inr fresh ↦ rw fresh (join_fresh m.chat_jid j m.ts (latest_in j seen))
]

pub latest_in-noted :
    (j : String) (ms : List Message) (seen : List LastTs)
    → latest_in j (noted ms seen) ≡ join_ts (latest_in j seen) (latest_of j ms)
unfolding noted latest_of
latest_in-noted j [] seen = join_ts_comm none (latest_in j seen)
latest_in-noted j (m ∷ ms) seen = elim (Bool-cases (is_skipped m)) [
  | inl skipped ↦ rw skipped (latest_in-noted j ms seen)
  | inr kept ↦
      rw (kept, latest_in-noted j ms (note_ts m seen), latest_in-note_ts j m seen)
        (join_ts_assoc (latest_in j seen) (only_if (m.chat_jid == j) m.ts) (latest_of j ms))
]
