-- ===== src/Prelude/Sort.antt =====
-- Sorting by a Boolean order "comes first", as ORDER BY and `sort.SliceStable` do: insertion that
-- keeps equal elements in their old order.
use Prim.Native.Nat.{suc}
use mathlib.Core.Path.{◌≡◌, refl, sym, ap}
use mathlib.Core.Logic.{inl, inr}
use mathlib.Core.Bool.{Bool, true, false}
use mathlib.Core.List.{List, [], ◌∷◌, ◌++◌, Perm}
use mathlib.Core.List.Perm
use native.Mathlib.Omega.{arith}
use wachat.Prelude.Tests.{if◌then◌else◌, Bool-cases}
use wachat.Prelude.Lists.{All, Pairs, All-map, All-filter, All-middle, filter, length}

-- A strict weak order: what `sort.SliceStable` asks of its `less`.
pub record IsOrder {ℓ} {A : Type ℓ} (first : A → A → Bool) : Type ℓ where
  pub asym : (a b : A) → first a b ≡ true → first b a ≡ false
  pub trans : (a b c : A) → first b a ≡ false → first c b ≡ false → first c a ≡ false

module _ {ℓ} {A : Type ℓ} (first : A → A → Bool) where
  unfoldable pub insert_by : A → List A → List A
  insert_by x [] = x ∷ []
  insert_by x (y ∷ ys) = if first y x then y ∷ insert_by x ys else x ∷ y ∷ ys

  unfoldable pub sort_by : List A → List A
  sort_by [] = []
  sort_by (x ∷ xs) = insert_by x (sort_by xs)

  -- No later element comes first.
  abbrev pub IsSorted : List A → Type 0
  IsSorted = Pairs (λ x y. first y x ≡ false)

  -- Every element comes before each later one.
  abbrev pub IsStrict : List A → Type 0
  IsStrict = Pairs (λ x y. first x y ≡ true)

  module _ {κ} (P : A → Type κ) where
    insert_by-All : (x : A) (xs : List A) → P x → All P xs → All P (insert_by x xs)
    unfolding insert_by
    insert_by-All x [] p h = (p, tt)
    insert_by-All x (y ∷ ys) p h = elim (Bool-cases (first y x)) [
      | inl e ↦ rw e (h.0, insert_by-All x ys p h.1)
      | inr e ↦ rw e (p, h)
    ]

    pub sort_by-All : (xs : List A) → All P xs → All P (sort_by xs)
    unfolding sort_by
    sort_by-All [] h = tt
    sort_by-All (x ∷ xs) h = insert_by-All x (sort_by xs) h.0 (sort_by-All xs h.1)

  -- A symmetric relation between any two elements survives the sorting.
  module _ {κ} (R : A → A → Type κ) (symm : (x y : A) → R x y → R y x) where
    insert_by-Pairs : (x : A) (xs : List A) → All (R x) xs → Pairs R xs → Pairs R (insert_by x xs)
    unfolding insert_by
    insert_by-Pairs x [] h k = (tt, tt)
    insert_by-Pairs x (y ∷ ys) h k = elim (Bool-cases (first y x)) [
      | inl e ↦ rw e (insert_by-All (R y) x ys (symm x y h.0) k.0, insert_by-Pairs x ys h.1 k.1)
      | inr e ↦ rw e (h, k)
    ]

    pub sort_by-Pairs : (xs : List A) → Pairs R xs → Pairs R (sort_by xs)
    unfolding sort_by
    sort_by-Pairs [] h = tt
    sort_by-Pairs (x ∷ xs) h =
        insert_by-Pairs x (sort_by xs) (sort_by-All (R x) xs h.0) (sort_by-Pairs xs h.1)

  pub insert_by-perm : (x : A) (xs : List A) → Perm (insert_by x xs) (x ∷ xs)
  unfolding insert_by
  insert_by-perm x [] = Perm.refl _
  insert_by-perm x (y ∷ ys) = elim (Bool-cases (first y x)) [
    | inl e ↦ rw e (Perm.trans (Perm.cons y (insert_by-perm x ys)) (Perm.swap x y ys))
    | inr e ↦ rw e (Perm.refl _)
  ]

  pub sort_by-perm : (xs : List A) → Perm (sort_by xs) xs
  unfolding sort_by
  sort_by-perm [] = Perm.refl _
  sort_by-perm (x ∷ xs) = Perm.trans (insert_by-perm x (sort_by xs)) (Perm.cons x (sort_by-perm xs))

module _ {ℓ} {A : Type ℓ} {first : A → A → Bool} (o : IsOrder first) where
  -- What a head needs of the next element, it has of the rest.
  IsSorted-below :
      (x y : A) (ys : List A)
      → first y x ≡ false
      → All (λ z. first z y ≡ false) ys
      → All (λ z. first z x ≡ false) (y ∷ ys)
  IsSorted-below x y ys e h =
      (e, All-map (λ z. first z y ≡ false) (λ z. first z x ≡ false) (λ z. o.trans x y z e) ys h)

  insert_by-IsSorted :
      (x : A) (xs : List A) → IsSorted first xs → IsSorted first (insert_by first x xs)
  unfolding insert_by
  insert_by-IsSorted x [] h = (tt, tt)
  insert_by-IsSorted x (y ∷ ys) h = elim (Bool-cases (first y x)) [
    | inl e ↦ rw e (
      insert_by-All first (λ z. first z y ≡ false) x ys (o.asym y x e) h.0,
      insert_by-IsSorted x ys h.1,
    )
    | inr e ↦ rw e (IsSorted-below x y ys e h.0, h)
  ]

  pub sort_by-IsSorted : (xs : List A) → IsSorted first (sort_by first xs)
  unfolding sort_by
  sort_by-IsSorted [] = tt
  sort_by-IsSorted (x ∷ xs) = insert_by-IsSorted x (sort_by first xs) (sort_by-IsSorted xs)

  -- An element that nothing precedes is inserted at the head.
  insert_by_least :
      (x : A) (xs : List A) → All (λ y. first y x ≡ false) xs → insert_by first x xs ≡ x ∷ xs
  unfolding insert_by
  insert_by_least x [] h = refl
  insert_by_least x (y ∷ ys) h = rw (h.0)

  module _ (p : A → Bool) where
    filter-insert_by :
        (x : A) (xs : List A)
        → IsSorted first xs
        → filter p (insert_by first x xs)
          ≡ (if p x then insert_by first x (filter p xs) else filter p xs)
    unfolding filter insert_by
    filter-insert_by x [] h = ground arith
    filter-insert_by x (y ∷ ys) h = elim (Bool-cases (first y x)) [
      | inl e ↦ elim (Bool-cases (p y)) [
        | inl q ↦ rw (e, q, filter-insert_by x ys h.1, e) (ground arith)
        | inr q ↦ rw (e, q, filter-insert_by x ys h.1)
      ]
      | inr e ↦ elim (Bool-cases (p x)) [
        | inl q ↦
            rw (e, q)
              (sym (
                insert_by_least x _
                  (All-filter (λ z. first z x ≡ false) p (y ∷ ys) (IsSorted-below x y ys e h.0))))
        | inr q ↦ rw (e, q)
      ]
    ]

    -- A query may select before it sorts or after.
    pub filter-sort_by : (xs : List A) → filter p (sort_by first xs) ≡ sort_by first (filter p xs)
    unfolding filter sort_by
    filter-sort_by [] = refl
    filter-sort_by (x ∷ xs) =
        rw (filter-insert_by x (sort_by first xs) (sort_by-IsSorted xs), filter-sort_by xs)
          (ground arith)

-- Cutting a strictly ordered list at one of its elements.
module _ {ℓ} {A : Type ℓ} {first : A → A → Bool} (o : IsOrder first) where
  first_irrefl : (x : A) → first x x ≡ false
  first_irrefl x = elim (Bool-cases (first x x)) [ inl e ↦ o.asym x x e | inr e ↦ e ]

  filter_self : (p : A → Bool) (xs : List A) → All (λ x. p x ≡ true) xs → filter p xs ≡ xs
  unfolding filter
  filter_self p [] h = refl
  filter_self p (x ∷ xs) h = rw (h.0, filter_self p xs h.1)

  filter_empty : (p : A → Bool) (xs : List A) → All (λ x. p x ≡ false) xs → filter p xs ≡ []
  unfolding filter
  filter_empty p [] h = refl
  filter_empty p (x ∷ xs) h = rw (h.0, filter_empty p xs h.1)

  -- What stands behind `x` is what comes after it.
  pub filter-after :
      (xs : List A) (x : A) (ys : List A)
      → IsStrict first (xs ++ x ∷ ys)
      → filter (first x) (xs ++ x ∷ ys) ≡ ys
  unfolding filter
  filter-after [] x ys h = rw (first_irrefl x) (filter_self (first x) ys h.0)
  filter-after (z ∷ xs) x ys h =
      rw (o.asym z x (All-middle (λ y. first z y ≡ true) xs x ys h.0)) (filter-after xs x ys h.1)

  -- What stands before `x` is what comes before it.
  pub filter-before :
      (xs : List A) (x : A) (ys : List A)
      → IsStrict first (xs ++ x ∷ ys)
      → filter (λ y. first y x) (xs ++ x ∷ ys) ≡ xs
  unfolding filter
  filter-before [] x ys h = rw (first_irrefl x) (
      filter_empty (λ y. first y x) ys
        (All-map (λ y. first x y ≡ true) (λ y. first y x ≡ false) (λ y. o.asym x y) ys h.0))
  filter-before (z ∷ xs) x ys h =
      rw (All-middle (λ y. first z y ≡ true) xs x ys h.0, filter-before xs x ys h.1)

  length-insert_by : (x : A) (xs : List A) → length (insert_by first x xs) ≡ suc (length xs)
  unfolding insert_by
  length-insert_by x [] = refl
  length-insert_by x (y ∷ ys) = ground (arith, length-insert_by x ys)

  length-sort_by : (xs : List A) → length (sort_by first xs) ≡ length xs
  unfolding sort_by
  length-sort_by [] = refl
  length-sort_by (x ∷ xs) = omega (arith, length-insert_by x (sort_by first xs), length-sort_by xs)

  -- A list that sorts to one element is that element.
  pub sort_by-eq_singleton : (xs : List A) (x : A) → sort_by first xs ≡ x ∷ [] → xs ≡ x ∷ []
  unfolding sort_by insert_by
  sort_by-eq_singleton [] x e = cc
  sort_by-eq_singleton (y ∷ []) x e = e
  sort_by-eq_singleton (y ∷ z ∷ ys) x e =
      absurd (omega (arith, length-sort_by (y ∷ z ∷ ys), ap length e))
