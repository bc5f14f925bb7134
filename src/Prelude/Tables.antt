-- ===== src/Prelude/Tables.antt =====
-- Tables with a key: what a lookup by the key finds after UPDATE, upsert and DELETE.
use mathlib.Core.Path.{◌≡◌, refl, ap}
use mathlib.Core.Logic.{inl, inr}
use mathlib.Core.Bool.{Bool, true, false, not}
use mathlib.Core.List.{List, [], ◌∷◌}
use mathlib.Core.Option.{Option, none, some}
use native.Mathlib.Omega.{arith}
use wachat.Prelude.Tests.{if◌then◌else◌, Bool-cases, Comparable, ◌==◌}
use wachat.Prelude.Lists.{find?, any, filter, update_where}

abbrev pub map_option {ℓ κ} : {A : Type ℓ} {B : Type κ} → (A → B) → Option A → Option B
map_option f none = none
map_option f (some a) = some (f a)

abbrev pub is_some {ℓ} : {A : Type ℓ} → Option A → Bool
is_some none = false
is_some (some a) = true

abbrev pub apply_or {ℓ} : {A : Type ℓ} → A → (A → A) → Option A → A
apply_or new f none = new
apply_or new f (some a) = f a

module _ {ℓ} {A : Type ℓ} where
  -- INSERT … ON CONFLICT(key) DO UPDATE, where `p` is the conflict.
  unfoldable pub upsert_where : (A → Bool) → A → (A → A) → List A → List A
  upsert_where p new f xs = if any p xs then update_where p f xs else new ∷ xs

  find?-cons :
      (p : A → Bool) (x : A) (xs : List A) → find? p (x ∷ xs) ≡ (if p x then some x else find? p xs)
  unfolding find?
  find?-cons p x xs = refl

  pub find?-any : (p : A → Bool) (xs : List A) → any p xs ≡ false → find? p xs ≡ none
  unfolding find? any
  find?-any p [] h = refl
  find?-any p (x ∷ xs) h = ground (arith, find?-any p xs)

  pub any-find? : (p : A → Bool) (xs : List A) → find? p xs ≡ none → any p xs ≡ false
  unfolding find? any
  any-find? p [] h = refl
  any-find? p (x ∷ xs) h = ground (arith, any-find? p xs)

module _ {ℓ κ} {A : Type ℓ} {K : Type κ} ⦃e : Comparable K⦄ (key : A → K) where
  -- `WHERE key = k`
  abbrev pub at_key : K → A → Bool
  at_key k a = key a == k

  pub find?-update_where :
      (f : A → A)
      → ((a : A) → key (f a) ≡ key a)
      → (k j : K) (xs : List A)
      → find? (at_key j) (update_where (at_key k) f xs)
        ≡ (if k == j then map_option f (find? (at_key j) xs) else find? (at_key j) xs)
  unfolding find? update_where
  find?-update_where f keeps k j [] = ground arith
  find?-update_where f keeps k j (x ∷ xs) = ground (
    arith,
    find?-update_where f keeps k j xs,
    keeps x,
    e.same_iff k j,
    e.same_iff (key x) k,
    e.same_iff (key x) j,
    e.same_iff (key (f x)) j,
  )

  any-at_key : (k j : K) (xs : List A) → (k == j) ≡ true → any (at_key k) xs ≡ any (at_key j) xs
  any-at_key k j xs h = ap (λ i. any (at_key i) xs) ((e.same_iff k j).0 h)

  pub find?-upsert_where :
      (f : A → A)
      → ((a : A) → key (f a) ≡ key a)
      → (new : A) (k : K) → key new ≡ k
      → (j : K) (xs : List A)
      → find? (at_key j) (upsert_where (at_key k) new f xs)
        ≡ (if k == j then some (apply_or new f (find? (at_key j) xs)) else find? (at_key j) xs)
  unfolding upsert_where
  find?-upsert_where f keeps new k is_k j xs = elim (Bool-cases (any (at_key k) xs)) [
    | inl old ↦
        rw (old, find?-update_where f keeps k j xs)
          (ground (arith, old, any-at_key k j xs, any-find? (at_key j) xs))
    | inr fresh ↦
        rw (fresh, find?-cons)
          (ground (
            arith,
            fresh,
            is_k,
            e.same_iff k j,
            e.same_iff (key new) j,
            any-at_key k j xs,
            find?-any (at_key j) xs,
          ))
  ]

  pub find?-filter :
      (k j : K) (xs : List A)
      → find? (at_key j) (filter (λ a. not (at_key k a)) xs)
        ≡ (if k == j then none else find? (at_key j) xs)
  unfolding find? filter
  find?-filter k j [] = ground arith
  find?-filter k j (x ∷ xs) =
      ground
        (arith, find?-filter k j xs, e.same_iff k j, e.same_iff (key x) k, e.same_iff (key x) j)
