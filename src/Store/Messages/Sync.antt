-- ===== src/Store/Messages/Sync.antt =====
-- The full-text index: the triggers keep one entry for each message, with the text that it has now.
use wachat.Prelude.{
  ℕ, ◌<◌, String, ◌≡◌, refl, sym, ◌∙◌, ap, Bool, inl, inr, Option, none, some, List, [], ◌∷◌, All,
  Pairs, find?, update_where, ◌==◌, text_eq, nat_eq, arith, if◌then◌else◌, Bool-cases,
}
use wachat.Prelude.Tables.{at_key, apply_or, find?-upsert_where, map_option}
use wachat.Store.Schema.{Message, MessageRow, FtsRow, Db, Sqlite}
use wachat.Store.WellFormed.{WellFormed, IsRowidOrder}
use wachat.Store.Messages.{
  insert, insert_row, to_row, fts_row, set_text, reindex, reindex_where, update_message,
}
use wachat.Store.Messages.Insert.{after_insert, insert_all_or_nothing}

abbrev pub find_fts : ℕ → List FtsRow → Option FtsRow
find_fts i = find? (at_key (λ f. f.rowid) i)

abbrev pub find_rowid : ℕ → List MessageRow → Option MessageRow
find_rowid i = find? (at_key (λ r. r.id) i)

-- Every rowid has the index entry of its message, and no rowid without a message has one.
abbrev pub IsInSync : Db → Type 0
IsInSync db = (i : ℕ) → find_fts i db.messages_fts ≡ map_option fts_row (find_rowid i db.messages)

pub insert_row-IsInSync :
    (d : Sqlite) (m : Message) (db : Db) → IsInSync db → IsInSync (insert_row d m db).1
unfolding insert_row find? to_row
insert_row-IsInSync d m db h i = ground (arith, h i)

-- Insert, failing or not, keeps the index in step with the messages.
pub insert-IsInSync :
    (d : Sqlite) (m : Message) (bump_unread : Bool) (db : Db)
    → IsInSync db
    → IsInSync (insert d m bump_unread db).1
unfolding after_insert
insert-IsInSync d m bump_unread db h = elim (insert_all_or_nothing d m bump_unread db) [
  | inl (failed, same) ↦ rw same h
  | inr done ↦ rw done (insert_row-IsInSync d m db h)
]

absent_rowid :
    (i : ℕ) (rows : List MessageRow) → All (λ r. r.id < i) rows → find_rowid i rows ≡ none
unfolding find?
absent_rowid i [] h = refl
absent_rowid i (r ∷ rs) h = ground (arith, h.0, absent_rowid i rs h.1)

module _ (p : MessageRow → Bool) (f : MessageRow → MessageRow)
    (keeps : (r : MessageRow) → (f r).id ≡ r.id) where
  abbrev update_one : MessageRow → MessageRow
  update_one r = if p r then f r else r

  find_rowid-update_where :
      (i : ℕ) (rows : List MessageRow)
      → find_rowid i (update_where p f rows) ≡ map_option update_one (find_rowid i rows)
  unfolding find? update_where
  find_rowid-update_where i [] = refl
  find_rowid-update_where i (r ∷ rs) = ground (arith, keeps r, find_rowid-update_where i rs)

  -- What the triggers of an UPDATE leave at a rowid.
  abbrev reindexed : Option MessageRow → Option FtsRow → Option FtsRow
  reindexed none old = old
  reindexed (some r) old = if p r then some (apply_or (fts_row (f r)) (set_text (f r)) old) else old

  find_fts-reindex_if :
      (i : ℕ) (r : MessageRow) (fts : List FtsRow)
      → find_fts i (if p r then reindex (f r) fts else fts)
        ≡ (if r.id == i then reindexed (some r) (find_fts i fts) else find_fts i fts)
  find_fts-reindex_if i r fts = ground (
    arith,
    keeps r,
    find?-upsert_where (λ e. e.rowid) (set_text (f r)) (λ e. refl) (fts_row (f r)) (f r).id refl i
        fts,
  )

  find_fts-reindex_where :
      (i : ℕ) (rows : List MessageRow) (fts : List FtsRow)
      → Pairs IsRowidOrder rows
      → find_fts i (reindex_where p f rows fts) ≡ reindexed (find_rowid i rows) (find_fts i fts)
  unfolding find? reindex_where
  find_fts-reindex_where i [] fts h = refl
  find_fts-reindex_where i (r ∷ rs) fts h = elim (Bool-cases (r.id == i)) [
    | inl e ↦
        let below : All (λ q. q.id < i) rs = rw (← (nat_eq.same_iff r.id i).0 e) h.0 in
        rw
          (
            e,
            find_fts-reindex_where i rs _ h.1,
            absent_rowid i rs below,
            find_fts-reindex_if i r fts,
            e,
          )
          refl
    | inr e ↦ rw (e, find_fts-reindex_where i rs _ h.1, find_fts-reindex_if i r fts, e) refl
  ]

  update_text :
      (o : Option MessageRow)
      → reindexed o (map_option fts_row o) ≡ map_option fts_row (map_option update_one o)
  update_text none = refl
  update_text (some r) = ground (arith, keeps r)

-- Every UPDATE of a message, whichever columns it sets, keeps the index in step with the messages.
pub update_message-IsInSync :
    (w : String) (f : MessageRow → MessageRow) (db : Db)
    → ((r : MessageRow) → (f r).id ≡ r.id)
    → WellFormed db
    → IsInSync db
    → IsInSync (update_message w f db)
unfolding update_message
update_message-IsInSync w f db keeps valid h i =
    let p = at_key (λ (r : MessageRow). r.wa_id) w in
    find_fts-reindex_where p f keeps i db.messages db.messages_fts valid.rowids
    ∙ ap (reindexed p f keeps (find_rowid i db.messages)) (h i)
    ∙ update_text p f keeps (find_rowid i db.messages)
    ∙ ap (map_option fts_row) (sym (find_rowid-update_where p f keeps i db.messages))
