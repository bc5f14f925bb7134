-- ===== src/Store/Messages/Insert.antt =====
-- Insert: all or nothing, idempotent on the message id, and keeping the invariant.
use wachat.Prelude.{
  ℕ, ◌<◌, ◌≤◌, String, ◌≡◌, refl, Bool, ◌⊎◌, inl, inr, Option, none, some, List, All, All-map,
  All-of_map, any, any-All, ◌==◌, text_eq, beq_self, arith, if◌then◌else◌, Bool-cases, Option-cases,
  Pairs,
}
use wachat.Prelude.Tables.{apply_or, at_key, find?-upsert_where}
use wachat.Store.Schema.{Message, MessageRow, ChatRow, Db, Sqlite, ids, find_chat}
use wachat.Store.Exec.{Result, ok, err}
use wachat.Store.WellFormed.{WellFormed, Covers, IsRowidOrder, IsOtherMessage}
use wachat.Store.Messages.{
  insert, insert_row, to_row, touch_chat, bump_chat, new_chat, unread_delta,
}

abbrev pub IsErr {ℓ} : {A : Type ℓ} → Result A → Type 0
IsErr (ok a) = ⊥
IsErr (err e) = Unit

-- What a successful Insert leaves.
unfoldable pub after_insert : Sqlite → Message → Bool → Db → Db
after_insert d m bump_unread db =
    let (created, db') = insert_row d m db in
    record db' { chats = touch_chat m.chat_jid m.ts (unread_delta created bump_unread) db.chats }

module _ (d : Sqlite) (m : Message) (bump_unread : Bool) (db : Db) where
  pub chats-insert_row : (insert_row d m db).1.chats ≡ db.chats
  unfolding insert_row
  chats-insert_row = ground arith

  -- Insert either fails and leaves the database as it was, or succeeds as a whole.
  pub insert_all_or_nothing :
      (IsErr (insert d m bump_unread db).0 × ((insert d m bump_unread db).1 ≡ db))
      ⊎ (insert d m bump_unread db ≡ (ok (insert_row d m db).0, after_insert d m bump_unread db))
  unfolding insert after_insert
  insert_all_or_nothing = ground (arith, chats-insert_row)

-- The chat row of another chat stays, and that of this chat advances or is made.
pub find_chat-touch_chat :
    (k j : String) (ts delta : ℕ) (chats : List ChatRow)
    → find_chat j (touch_chat k ts delta chats) ≡ (
        if k == j
        then some
            (apply_or (new_chat k "" (some ts) delta) (bump_chat ts delta) (find_chat j chats))
        else find_chat j chats)
unfolding touch_chat
find_chat-touch_chat k j ts delta chats =
    find?-upsert_where (λ c. c.jid) (bump_chat ts delta) (λ c. refl) (new_chat k "" (some ts) delta)
      k refl j chats

touch_chat_self :
    (ts delta : ℕ) (k : String) (o : Option ChatRow)
    → Covers (some (apply_or (new_chat k "" (some ts) delta) (bump_chat ts delta) o)) ts
touch_chat_self ts delta k none = omega arith
touch_chat_self ts delta k (some c) = elim (Option-cases c.last_ts) [
  | inl e ↦ rw e (omega arith)
  | inr (t, e) ↦ rw e (omega arith)
]

touch_chat_keeps :
    (old ts delta : ℕ) (k : String) (o : Option ChatRow)
    → Covers o old
    → Covers (some (apply_or (new_chat k "" (some ts) delta) (bump_chat ts delta) o)) old
touch_chat_keeps old ts delta k none h = absurd h
touch_chat_keeps old ts delta k (some c) h = elim (Option-cases c.last_ts) [
  | inl e ↦ absurd (rw e at h)
  | inr (t, e) ↦ rw e (let le : old ≤ t = rw e at h in omega arith)
]

touch_chat-Covers :
    (j k : String) (old ts delta : ℕ) (chats : List ChatRow)
    → Covers (find_chat j chats) old
    → Covers (find_chat j (touch_chat k ts delta chats)) old
touch_chat-Covers j k old ts delta chats h = elim (Bool-cases (k == j)) [
  | inl e ↦ rw (find_chat-touch_chat k j ts delta chats, e) (touch_chat_keeps old ts delta k _ h)
  | inr e ↦ rw (find_chat-touch_chat k j ts delta chats, e) h
]

module _ (d : Sqlite) (m : Message) (db : Db) (w : WellFormed db) where
  insert_row_parts :
      All (λ r. 0 < r.id) (insert_row d m db).1.messages
      × Pairs IsRowidOrder (insert_row d m db).1.messages
      × Pairs IsOtherMessage (insert_row d m db).1.messages
  unfolding insert_row to_row
  insert_row_parts = elim (Bool-cases (any (at_key (λ r. r.wa_id) m.wa_id) db.messages)) [
    | inl e ↦ rw e (w.positive, w.rowids, w.unique)
    | inr e ↦ rw e (
      (d.next_id_pos (ids db.messages), w.positive),
      (
        All-of_map (λ i. i < d.next_id (ids db.messages)) (λ r. r.id) db.messages
            (d.next_id_above (ids db.messages)),
        w.rowids,
      ),
      (any-All (at_key (λ r. r.wa_id) m.wa_id) db.messages e, w.unique),
    )
  ]

  CoveredBy : (delta : ℕ) → List MessageRow → Type 0
  CoveredBy delta =
      All (λ r. Covers (find_chat r.chat_jid (touch_chat m.chat_jid m.ts delta db.chats)) r.ts)

  insert_row_covered : (delta : ℕ) → CoveredBy delta (insert_row d m db).1.messages
  unfolding insert_row to_row CoveredBy
  insert_row_covered delta =
      let old =
        All-map (λ r. Covers (find_chat r.chat_jid db.chats) r.ts) _
          (λ r. touch_chat-Covers r.chat_jid m.chat_jid r.ts m.ts delta db.chats) db.messages
          w.covered in
      elim (Bool-cases (any (at_key (λ r. r.wa_id) m.wa_id) db.messages)) [
        | inl e ↦ rw e old
        | inr e ↦ rw e (
          rw (find_chat-touch_chat, beq_self m.chat_jid) (touch_chat_self m.ts delta m.chat_jid _),
          old,
        )
      ]

  pub after_insert-WellFormed : (bump_unread : Bool) → WellFormed (after_insert d m bump_unread db)
  unfolding after_insert CoveredBy
  after_insert-WellFormed bump_unread =
      let (positive, rowids, unique) = insert_row_parts in
      record {
        positive = positive;
        rowids = rowids;
        unique = unique;
        covered = insert_row_covered _;
      }

  -- From a well-formed database and whatever the driver does, Insert keeps rowids ascending,
  -- message ids unique, and every message covered by a chat row whose `last_ts` is no earlier.
  pub insert-WellFormed : (bump_unread : Bool) → WellFormed (insert d m bump_unread db).1
  insert-WellFormed bump_unread = elim (insert_all_or_nothing d m bump_unread db) [
    | inl (failed, same) ↦ rw same w
    | inr done ↦ rw done (after_insert-WellFormed bump_unread)
  ]
