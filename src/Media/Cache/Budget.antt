-- ===== src/Media/Cache/Budget.antt =====
-- The byte budget: what may exceed it is held.
use wachat.Prelude.{
  ℕ, ◌-◌, ◌≤◌, ◌≡◌, refl, ◌⊎◌, inl, inr, String, true, List, [], ◌∷◌, ◌==◌, nat_eq, ltb, ltb→le,
  arith, Option-cases, Bool-cases,
}
use wachat.Prelude.Int.{is_nonpositive, to_ℕ}
use wachat.Media.Cache.{
  Cache, DecodeFn, get_entry, evict, evict_while, evict_if_over, add_entry, decode, release,
  enqueue, drop_one, remove_from_lru,
}

module _ {Image : Type 0} where
  -- No budget, or within the budget, or nothing is left to evict.
  abbrev pub IsWithinBudget : Cache Image → Type 0
  IsWithinBudget c =
      (is_nonpositive c.max_bytes ≡ true) ⊎ (c.total ≤ to_ℕ c.max_bytes) ⊎ (c.lru ≡ [])

  max_bytes-evict : (v : String) (c : Cache Image) → (evict v c).max_bytes ≡ c.max_bytes
  unfolding evict
  max_bytes-evict v c = elim (Option-cases (get_entry v c)) [
    | inl e ↦ rw (e, evict) refl
    | inr (x, e) ↦ rw (e, evict) refl
  ]

  pub max_bytes-evict_while :
      (budget : ℕ) (released : List String) (c : Cache Image)
      → (evict_while budget released c).max_bytes ≡ c.max_bytes
  unfolding evict_while
  max_bytes-evict_while budget [] c = refl
  max_bytes-evict_while budget (v ∷ rest) c =
      ground (arith, max_bytes-evict_while budget rest (evict v c), max_bytes-evict v c)

  evict_while-total :
      (budget : ℕ) (released : List String) (c : Cache Image)
      → ((evict_while budget released c).total ≤ budget)
        ⊎ ((evict_while budget released c).lru ≡ [])
  unfolding evict_while
  evict_while-total budget [] c = inr refl
  evict_while-total budget (v ∷ rest) c = elim (Bool-cases (ltb budget c.total)) [
    | inl e ↦ rw e (evict_while-total budget rest (evict v c))
    | inr e ↦ rw e (inl (ltb→le budget c.total e))
  ]

  pub evict_if_over-IsWithinBudget : (c : Cache Image) → IsWithinBudget (evict_if_over c)
  unfolding evict_if_over
  evict_if_over-IsWithinBudget c = elim (Bool-cases (is_nonpositive c.max_bytes)) [
    | inl e ↦ rw e (inl e)
    | inr e ↦ rw e (
        rw (max_bytes-evict_while (to_ℕ c.max_bytes) c.lru c)
          (inr (evict_while-total (to_ℕ c.max_bytes) c.lru c)))
  ]

  pub decode-IsWithinBudget :
      (answer : DecodeFn Image) (p : String) (c : Cache Image)
      → IsWithinBudget c
      → IsWithinBudget (decode answer p c).1
  unfolding decode remove_from_lru
  decode-IsWithinBudget answer p c h = elim (Option-cases (get_entry p c)) [
    | inl new ↦ elim (Option-cases (answer p)) [
      | inl e ↦ rw (new, e, decode) h
      | inr ((img, bytes), e) ↦
          rw (new, e, decode) (evict_if_over-IsWithinBudget (add_entry p img bytes c))
    ]
    | inr (x, e) ↦
        rw (e, decode)
          (elim h [
            | inl a ↦ inl a
            | inr (inl b) ↦ inr (inl b)
            | inr (inr none_left) ↦ inr (inr (rw none_left refl))
          ])
  ]

  pub release-IsWithinBudget :
      (p : String) (c : Cache Image) → IsWithinBudget c → IsWithinBudget (release p c)
  unfolding release
  release-IsWithinBudget p c h = elim (Option-cases (get_entry p c)) [
    | inl e ↦ rw (e, release) h
    | inr (x, e) ↦ elim (Bool-cases (x.refcount - 1 == 0)) [
      | inl last ↦ rw (e, release, last) (evict_if_over-IsWithinBudget (enqueue p (drop_one p c)))
      | inr more ↦ rw (e, release, more) h
    ]
  ]
