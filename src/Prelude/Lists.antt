-- ===== src/Prelude/Lists.antt =====
-- Lists measured by native numbers and searched by Boolean tests, as the queries and loops do.
use Prim.Native.Nat.{ℕ, zero, suc, ◌+◌, ◌≤◌, min}
use mathlib.Core.Path.{◌≡◌, refl, ap}
use mathlib.Core.Logic.{inl, inr}
use mathlib.Core.Bool.{Bool, false, ◌&&◌, ◌||◌}
use mathlib.Core.List.{List, [], ◌∷◌, ◌++◌, map}
use mathlib.Core.Option.{Option, none, some}
use native.Mathlib.Omega.{arith}
use wachat.Prelude.Tests.{if◌then◌else◌, Bool-cases}

-- Every element satisfies `P`.
abbrev pub All {ℓ κ} : {A : Type ℓ} → (A → Type κ) → List A → Type κ
All P [] = Unit
All P (x ∷ xs) = P x × All P xs

-- Every element stands in `R` to each later one.
abbrev pub Pairs {ℓ κ} : {A : Type ℓ} → (A → A → Type κ) → List A → Type κ
Pairs R [] = Unit
Pairs R (x ∷ xs) = All (R x) xs × Pairs R xs

module _ {ℓ} {A : Type ℓ} where
  abbrev pub length : List A → ℕ
  length [] = 0
  length (x ∷ xs) = suc (length xs)

  abbrev pub get_elem? : List A → ℕ → Option A
  get_elem? [] i = none
  get_elem? (x ∷ xs) zero = some x
  get_elem? (x ∷ xs) (suc i) = get_elem? xs i

  abbrev pub take : ℕ → List A → List A
  take zero xs = []
  take (suc n) [] = []
  take (suc n) (x ∷ xs) = x ∷ take n xs

  abbrev pub drop : ℕ → List A → List A
  drop zero xs = xs
  drop (suc n) [] = []
  drop (suc n) (x ∷ xs) = drop n xs

  -- The last element, `xs[len(xs)-1]`.
  abbrev pub get_last? : List A → Option A
  get_last? [] = none
  get_last? (x ∷ []) = some x
  get_last? (x ∷ y ∷ xs) = get_last? (y ∷ xs)

  abbrev pub head? : List A → Option A
  head? [] = none
  head? (x ∷ xs) = some x

  -- A SELECT's WHERE clause.
  unfoldable pub filter : (A → Bool) → List A → List A
  filter p [] = []
  filter p (x ∷ xs) = if p x then x ∷ filter p xs else filter p xs

  -- The first row that a WHERE clause selects.
  unfoldable pub find? : (A → Bool) → List A → Option A
  find? p [] = none
  find? p (x ∷ xs) = if p x then some x else find? p xs

  unfoldable pub any : (A → Bool) → List A → Bool
  any p [] = false
  any p (x ∷ xs) = p x || any p xs

  -- UPDATE … SET f WHERE p.
  unfoldable pub update_where : (A → Bool) → (A → A) → List A → List A
  update_where p f [] = []
  update_where p f (x ∷ xs) = (if p x then f x else x) ∷ update_where p f xs

  pub length-append : (xs ys : List A) → length (xs ++ ys) ≡ length xs + length ys
  length-append [] ys = omega arith
  length-append (x ∷ xs) ys = omega (arith, length-append xs ys)

  pub take-append-drop : (n : ℕ) (xs : List A) → take n xs ++ drop n xs ≡ xs
  take-append-drop zero xs = refl
  take-append-drop (suc n) [] = refl
  take-append-drop (suc n) (x ∷ xs) = ap (◌∷◌ x) (take-append-drop n xs)

  pub length-take : (n : ℕ) (xs : List A) → length (take n xs) ≡ min n (length xs)
  length-take zero xs = omega arith
  length-take (suc n) [] = omega arith
  length-take (suc n) (x ∷ xs) = omega (arith, length-take n xs)

  pub length-drop-le : (n : ℕ) (xs : List A) → length (drop n xs) ≤ length xs
  length-drop-le zero xs = omega arith
  length-drop-le (suc n) [] = omega arith
  length-drop-le (suc n) (x ∷ xs) = omega (arith, length-drop-le n xs)

  pub take_all : (n : ℕ) (xs : List A) → length xs ≤ n → take n xs ≡ xs
  take_all zero [] h = refl
  take_all zero (x ∷ xs) h = absurd (omega arith)
  take_all (suc n) [] h = refl
  take_all (suc n) (x ∷ xs) h = ap (◌∷◌ x) (take_all n xs (omega arith))

  module _ {κ} (P : A → Type κ) where
    pub All-map {μ} : (Q : A → Type μ) (f : (x : A) → P x → Q x) (xs : List A) → All P xs → All Q xs
    All-map Q f [] h = tt
    All-map Q f (x ∷ xs) h = (f x h.0, All-map Q f xs h.1)

    pub All-append : (xs ys : List A) → All P xs → All P ys → All P (xs ++ ys)
    All-append [] ys h k = k
    All-append (x ∷ xs) ys h k = (h.0, All-append xs ys h.1 k)

    pub All-and {μ} : (Q : A → Type μ) (xs : List A) → All P xs → All Q xs → All (λ x. P x × Q x) xs
    All-and Q [] h k = tt
    All-and Q (x ∷ xs) h k = ((h.0, k.0), All-and Q xs h.1 k.1)

    pub All-middle : (xs : List A) (x : A) (ys : List A) → All P (xs ++ x ∷ ys) → P x
    All-middle [] x ys h = h.0
    All-middle (z ∷ xs) x ys h = All-middle xs x ys h.1

    pub All-filter : (p : A → Bool) (xs : List A) → All P xs → All P (filter p xs)
    unfolding filter
    All-filter p [] h = tt
    All-filter p (x ∷ xs) h = elim (Bool-cases (p x)) [
      | inl e ↦ rw e (h.0, All-filter p xs h.1)
      | inr e ↦ rw e (All-filter p xs h.1)
    ]

  module _ {κ} (R : A → A → Type κ) where
    pub Pairs-filter : (p : A → Bool) (xs : List A) → Pairs R xs → Pairs R (filter p xs)
    unfolding filter
    Pairs-filter p [] h = tt
    Pairs-filter p (x ∷ xs) h = elim (Bool-cases (p x)) [
      | inl e ↦ rw e (All-filter (R x) p xs h.0, Pairs-filter p xs h.1)
      | inr e ↦ rw e (Pairs-filter p xs h.1)
    ]

    pub Pairs-map {μ} :
        (Q : A → A → Type μ) (f : (x y : A) → R x y → Q x y) (xs : List A) → Pairs R xs → Pairs Q xs
    Pairs-map Q f [] h = tt
    Pairs-map Q f (x ∷ xs) h = (All-map (R x) (Q x) (f x) xs h.0, Pairs-map Q f xs h.1)

    pub Pairs-and {μ} :
        (Q : A → A → Type μ) (xs : List A)
        → Pairs R xs
        → Pairs Q xs
        → Pairs (λ x y. R x y × Q x y) xs
    Pairs-and Q [] h k = tt
    Pairs-and Q (x ∷ xs) h k = (All-and (R x) (Q x) xs h.0 k.0, Pairs-and Q xs h.1 k.1)

  pub filter-and :
      (p q : A → Bool) (xs : List A) → filter (λ x. p x && q x) xs ≡ filter q (filter p xs)
  unfolding filter
  filter-and p q [] = refl
  filter-and p q (x ∷ xs) = elim (Bool-cases (p x)) [
    | inl e ↦ rw (e, filter-and p q xs)
    | inr e ↦ rw (e, filter-and p q xs)
  ]

  -- A list that is not empty ends in its last element.
  pub get_last?-split :
      (x : A) (xs : List A)
      → (init : List A) × (z : A) × (x ∷ xs ≡ init ++ z ∷ []) × (get_last? (x ∷ xs) ≡ some z)
  get_last?-split x [] = ([], x, refl, refl)
  get_last?-split x (y ∷ xs) =
      let (init, z, cut, last) = get_last?-split y xs in (x ∷ init, z, ap (◌∷◌ x) cut, last)

pub get_last?-map {ℓ κ} :
    {A : Type ℓ} {B : Type κ} (f : A → B) (xs : List A) {z : A}
    → get_last? xs ≡ some z
    → get_last? (map f xs) ≡ some (f z)
get_last?-map f [] h = cc
get_last?-map f (x ∷ []) h = ground arith
get_last?-map f (x ∷ y ∷ xs) h = get_last?-map f (y ∷ xs) h

module _ {ℓ} {A : Type ℓ} where
  -- A search finds the first row that the selection keeps.
  pub find?-filter_head : (p : A → Bool) (xs : List A) → find? p xs ≡ head? (filter p xs)
  unfolding find? filter
  find?-filter_head p [] = refl
  find?-filter_head p (x ∷ xs) = ground (arith, find?-filter_head p xs)

  pub any-All : (p : A → Bool) (xs : List A) → any p xs ≡ false → All (λ x. p x ≡ false) xs
  unfolding any
  any-All p [] h = tt
  any-All p (x ∷ xs) h = elim (Bool-cases (p x)) [
    | inl e ↦ cc
    | inr e ↦ (e, any-All p xs (ground arith))
  ]

pub All-of_map {ℓ κ μ} :
    {A : Type ℓ} {B : Type κ} (P : B → Type μ) (f : A → B) (xs : List A)
    → All P (map f xs)
    → All (λ x. P (f x)) xs
All-of_map P f [] h = tt
All-of_map P f (x ∷ xs) h = (h.0, All-of_map P f xs h.1)

module _ {ℓ κ} {A : Type ℓ} (p : A → Bool) (f : A → A) where
  pub All-update_where :
      (P : A → Type κ) (keeps : (x : A) → P x → P (f x)) (xs : List A)
      → All P xs
      → All P (update_where p f xs)
  unfolding update_where
  All-update_where P keeps [] h = tt
  All-update_where P keeps (x ∷ xs) h = elim (Bool-cases (p x)) [
    | inl e ↦ rw e (keeps x h.0, All-update_where P keeps xs h.1)
    | inr e ↦ rw e (h.0, All-update_where P keeps xs h.1)
  ]

  pub Pairs-update_where :
      (R : A → A → Type κ) (left : (x y : A) → R x y → R (f x) y)
      (right : (x y : A) → R x y → R x (f y)) (xs : List A)
      → Pairs R xs
      → Pairs R (update_where p f xs)
  unfolding update_where
  Pairs-update_where R left right [] h = tt
  Pairs-update_where R left right (x ∷ xs) h =
      let rest = All-update_where (R x) (right x) xs h.0 in
      elim (Bool-cases (p x)) [
        | inl e ↦
            rw e (All-map (R x) (R (f x)) (left x) _ rest, Pairs-update_where R left right xs h.1)
        | inr e ↦ rw e (rest, Pairs-update_where R left right xs h.1)
      ]

pub length-map {ℓ κ} :
    {A : Type ℓ} {B : Type κ} (f : A → B) (xs : List A) → length (map f xs) ≡ length xs
length-map f [] = refl
length-map f (x ∷ xs) = omega (arith, length-map f xs)
