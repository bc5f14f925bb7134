-- ===== src/Store/Migrations/Columns.antt =====
-- The loop over the wanted columns, where no call fails.
use wachat.Prelude.{
  ℕ, suc, ◌≡◌, refl, sym, subst, ◌∙◌, String, true, false, inl, inr, List, [], ◌∷◌, ◌++◌, ◌==◌,
  text_eq, any, All, arith, if◌then◌else◌, Bool-cases, text_iff,
}
use wachat.Store.Schema.{Db, Sqlite, exec_alter, scan}
use wachat.Store.Exec.{ok, Succeeds}
use wachat.Store.Migrations.{Column, has_column, scan_columns, scan_for, add_columns}

-- Every column of the first list is in the second.
abbrev pub HasColumns : List String → List String → Type 0
HasColumns wanted have =
    (name : String) → has_column name wanted ≡ true → has_column name have ≡ true

pub has_column-append :
    (c : String) (xs ys : List String) → has_column c xs ≡ true → has_column c (xs ++ ys) ≡ true
unfolding any
has_column-append c [] ys h = absurd (ground (arith, h))
has_column-append c (x ∷ xs) ys h = ground (arith, h, has_column-append c xs ys)

has_column-last : (c : String) (xs : List String) → has_column c (xs ++ c ∷ []) ≡ true
unfolding any
has_column-last c [] = ground (arith, text_iff c c)
has_column-last c (x ∷ xs) = ground (arith, has_column-last c xs)

module _ (d : Sqlite) (s : Succeeds d) where
  pub scan_columns_succeeds :
      (i : ℕ) (cs : List String) (db : Db) → scan_columns d i cs db ≡ (ok cs, db)
  unfolding scan_columns
  scan_columns_succeeds i [] db = refl
  scan_columns_succeeds i (c ∷ cs) db = rw (s (scan i), scan_columns_succeeds (suc i) cs db) refl

  pub scan_for_succeeds :
      (i : ℕ) (name : String) (cs : List String) (db : Db)
      → scan_for d i name cs db ≡ (ok (has_column name cs), db)
  unfolding scan_for any
  scan_for_succeeds i name [] db = refl
  scan_for_succeeds i name (c ∷ cs) db = elim (Bool-cases (c == name)) [
    | inl e ↦ rw (s (scan i), e) refl
    | inr e ↦ rw (s (scan i), e) (scan_for_succeeds (suc i) name cs db)
  ]

module _ {R : Type 0} (alter : Column R → Db → Db) (have : List String) where
  -- `add_columns` as a function of the database.
  unfoldable pub added : List (Column R) → Db → Db
  added [] db = db
  added (c ∷ cs) db =
      let rest = added cs in if has_column c.name have then rest db else rest (alter c db)

  pub add_columns_succeeds :
      (d : Sqlite)
      → Succeeds d
      → (cs : List (Column R)) (db : Db) → add_columns d alter have cs db ≡ (ok tt, added cs db)
  unfolding add_columns added
  add_columns_succeeds d s [] db = refl
  add_columns_succeeds d s (c ∷ cs) db = elim (Bool-cases (has_column c.name have)) [
    | inl e ↦ rw e (add_columns_succeeds d s cs db)
    | inr e ↦ rw (e, s (exec_alter c.name)) (add_columns_succeeds d s cs (alter c db))
  ]

  -- Nothing is added to a table that has every column.
  pub added_none :
      (cs : List (Column R)) (db : Db)
      → All (λ c. has_column c.name have ≡ true) cs
      → added cs db ≡ db
  unfolding added
  added_none [] db h = refl
  added_none (c ∷ cs) db h = rw h.0 (added_none cs db h.1)

  added-present :
      (c : Column R) (cs : List (Column R)) (db : Db)
      → has_column c.name have ≡ true
      → added (c ∷ cs) db ≡ added cs db
  unfolding added
  added-present c cs db e = rw e refl

  added-absent :
      (c : Column R) (cs : List (Column R)) (db : Db)
      → has_column c.name have ≡ false
      → added (c ∷ cs) db ≡ added cs (alter c db)
  unfolding added
  added-absent c cs db e = rw e refl

  module _ (cols : Db → List String)
      (grows : (c : Column R) (db : Db) → cols (alter c db) ≡ cols db ++ c.name ∷ []) where
    -- A column that is there stays.
    pub has_column-added :
        (name : String) (cs : List (Column R)) (db : Db)
        → has_column name (cols db) ≡ true
        → has_column name (cols (added cs db)) ≡ true
    unfolding added
    has_column-added name [] db h = h
    has_column-added name (c ∷ cs) db h = elim (Bool-cases (has_column c.name have)) [
      | inl e ↦ rw e (has_column-added name cs db h)
      | inr e ↦ rw e (
          has_column-added name cs (alter c db)
            (rw (grows c db) (has_column-append name (cols db) (c.name ∷ []) h)))
    ]

    abbrev pub HasAll : List (Column R) → Db → Type 0
    HasAll cs db = All (λ c. has_column c.name (cols db) ≡ true) cs

    -- Every wanted column is there in the end.
    pub added-HasAll :
        (cs : List (Column R)) (db : Db)
        → ((name : String) → has_column name have ≡ true → has_column name (cols db) ≡ true)
        → HasAll cs (added cs db)
    added-HasAll [] db h = tt
    added-HasAll (c ∷ cs) db h = elim (Bool-cases (has_column c.name have)) [
      | inl e ↦
          subst (HasAll (c ∷ cs)) (sym (added-present c cs db e))
            (has_column-added c.name cs db (h c.name e), added-HasAll cs db h)
      | inr e ↦ subst (HasAll (c ∷ cs)) (sym (added-absent c cs db e)) (
        has_column-added c.name cs (alter c db)
            (rw (grows c db) (has_column-last c.name (cols db))),
        added-HasAll cs (alter c db)
            (λ name x. rw (grows c db) (has_column-append name (cols db) (c.name ∷ []) (h name x))),
      )
    ]

-- What every ALTER keeps is kept.
pub added-keeps {ℓ} :
    {R : Type 0} {X : Type ℓ} (alter : Column R → Db → Db) (have : List String) (view : Db → X)
    (cs : List (Column R)) (db : Db)
    → All (λ c. (db : Db) → view (alter c db) ≡ view db) cs
    → view (added alter have cs db) ≡ view db
unfolding added
added-keeps alter have view [] db k = refl
added-keeps alter have view (c ∷ cs) db k = elim (Bool-cases (has_column c.name have)) [
  | inl e ↦ rw e (added-keeps alter have view cs db k.1)
  | inr e ↦ rw e (added-keeps alter have view cs (alter c db) k.1 ∙ k.0 db)
]

-- What each ALTER of a column that was not found keeps is kept.
pub added-preserves {ℓ} :
    {R : Type 0} (alter : Column R → Db → Db) (have : List String) (P : Db → Type ℓ)
    (cs : List (Column R)) (db : Db)
    → All (λ c. has_column c.name have ≡ false → (x : Db) → P x → P (alter c x)) cs
    → P db
    → P (added alter have cs db)
unfolding added
added-preserves alter have P [] db k h = h
added-preserves alter have P (c ∷ cs) db k h = elim (Bool-cases (has_column c.name have)) [
  | inl e ↦ rw e (added-preserves alter have P cs db k.1 h)
  | inr e ↦ rw e (added-preserves alter have P cs (alter c db) k.1 (k.0 e db h))
]
