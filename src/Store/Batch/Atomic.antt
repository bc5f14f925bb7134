-- ===== src/Store/Batch/Atomic.antt =====
-- InsertBatch against the invariant of the database and its search index.
use wachat.Prelude.{◌≡◌, refl, ◌⊎◌, inl, inr, List, [], ◌∷◌, text_eq, Bool-cases, All-map}
use wachat.Store.Schema.{Message, Db, Sqlite, find_chat}
use wachat.Store.Exec.{ok}
use wachat.Store.WellFormed.{WellFormed, Covers}
use wachat.Store.Messages.{insert_row}
use wachat.Store.Messages.Insert.{IsErr}
use wachat.Store.Exec.Keeps.{Keeps}
use wachat.Store.Messages.Sync.{IsInSync, insert_row-IsInSync}
use wachat.Store.Messages.Updates.{IsSound}
use wachat.Store.Batch.{is_skipped, insert_batch}
use wachat.Store.Batch.Run.{rows_after, created_by, after_batch, insert_batch_all_or_nothing}
use wachat.Store.Batch.Each.{
  after_each, after_each-WellFormed, after_each_batch, rows_after-none, rows_after-skipped,
  rows_after-kept,
}

pub after_batch-WellFormed :
    (d : Sqlite) (ms : List Message) (db : Db) → WellFormed db → WellFormed (after_batch d ms db)
after_batch-WellFormed d ms db w =
    let (messages, fts, chats) = after_each_batch d ms db in
    let each = after_each-WellFormed d ms db w in
    record {
      positive = rw messages at each.positive;
      rowids = rw messages at each.rowids;
      unique = rw messages at each.unique;
      covered =
          All-map (λ r. Covers (find_chat r.chat_jid (after_each d ms db).chats) r.ts) _
            (λ r h. rw (chats r.chat_jid) at h) (after_batch d ms db).messages
            (rw messages at each.covered);
    }

-- From a well-formed database and whatever the driver does, InsertBatch either fails and leaves the
-- database as it was, or succeeds, and then the database is well-formed: rowids ascend, message ids
-- are unique, and every message is covered by a chat row whose `last_ts` is no earlier.
pub insert_batch_atomic :
    (d : Sqlite) (ms : List Message) (db : Db)
    → WellFormed db
    → (IsErr (insert_batch d ms db).0 × ((insert_batch d ms db).1 ≡ db))
      ⊎ (((insert_batch d ms db).0 ≡ ok (created_by d ms db)) × WellFormed (insert_batch d ms db).1)
insert_batch_atomic d ms db w = elim (insert_batch_all_or_nothing d ms db) [
  | inl failed ↦ inl failed
  | inr done ↦ inr (rw done (refl, after_batch-WellFormed d ms db w))
]

rows_after-IsInSync :
    (d : Sqlite) (ms : List Message) (db : Db) → IsInSync db → IsInSync (rows_after d ms db)
rows_after-IsInSync d [] db h = rw (rows_after-none d db) h
rows_after-IsInSync d (m ∷ ms) db h = elim (Bool-cases (is_skipped m)) [
  | inl skipped ↦ rw (rows_after-skipped d m ms db skipped) (rows_after-IsInSync d ms db h)
  | inr kept ↦
      rw (rows_after-kept d m ms db kept)
        (rows_after-IsInSync d ms (insert_row d m db).1 (insert_row-IsInSync d m db h))
]

after_batch-IsInSync :
    (d : Sqlite) (ms : List Message) (db : Db) → IsInSync db → IsInSync (after_batch d ms db)
unfolding after_batch
after_batch-IsInSync d ms db h = rows_after-IsInSync d ms db h

-- InsertBatch, failing or not, keeps the invariant and the search index.
pub insert_batch-IsSound : (d : Sqlite) (ms : List Message) → Keeps IsSound (insert_batch d ms)
insert_batch-IsSound d ms = record {
  at = λ db h. elim (insert_batch_all_or_nothing d ms db) [
    | inl (failed, same) ↦ rw same h
    | inr done ↦ rw done (record {
      well_formed = after_batch-WellFormed d ms db h.well_formed;
      in_sync = after_batch-IsInSync d ms db h.in_sync;
    })
  ];
}
