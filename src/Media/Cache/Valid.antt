-- ===== src/Media/Cache/Valid.antt =====
-- The cache's invariant: unique paths, exact accounting, and a list of exactly the released
-- entries.
use wachat.Prelude.{
  ℕ, ◌-◌, ◌≡◌, refl, String, Bool, true, false, Option, none, some, List, [], ◌∷◌, ◌==◌, nat_eq,
  text_eq, text_iff, beq_self, any, find?, arith, Option-cases, Bool-cases, inl, inr, ltb,
}
use wachat.Prelude.Int.{ℤ, is_nonpositive, to_ℕ}
use wachat.Prelude.Tables.{at_key, find?-update_where, find?-filter, any-find?}
use wachat.Media.Cache.{
  Cache, Entry, DecodeFn, get_entry, evict, evict_while, evict_if_over, add_entry, decode, release,
  enqueue, drop_one, new_cache, remove_from_lru, count_reference, drop_reference,
}
use wachat.Media.Cache.Paths.{
  has, distinct, has-cons, has-append, distinct-append, has-remove_from_lru,
  distinct-remove_from_lru, distinct_paths, sum_bytes, distinct_paths-update_where,
  sum_bytes-update_where, distinct_paths-filter, sum_bytes-filter,
}

module _ {Image : Type 0} where
  abbrev pub is_released : Option (Entry Image) → Bool
  is_released none = false
  is_released (some e) = e.refcount == 0

  -- The cache, with `released` in place of its own list.
  pub record IsValidWith (released : List String) (c : Cache Image) : Type 0 where
    pub unique : distinct_paths c.entries ≡ true
    pub accounted : c.total ≡ sum_bytes c.entries
    pub once : distinct released ≡ true
    pub tracked : (p : String) → has released p ≡ is_released (get_entry p c)

  abbrev pub IsValid : Cache Image → Type 0
  IsValid c = IsValidWith c.lru c

  pub evict-IsValidWith :
      (v : String) (rest : List String) (c : Cache Image)
      → IsValidWith (v ∷ rest) c
      → IsValidWith rest (evict v c)
  unfolding evict distinct
  evict-IsValidWith v rest c h = elim (Option-cases (get_entry v c)) [
    | inl e ↦ absurd (ground (arith, e, h.tracked v, has-cons v rest v, beq_self v))
    | inr (x, e) ↦
        rw (e, evict)
          (record {
            unique = distinct_paths-filter v c.entries h.unique;
            accounted = ground (arith, h.accounted, sum_bytes-filter v c.entries x h.unique e);
            once = ground (arith, h.once);
            tracked = λ p. ground (
              arith,
              h.once,
              h.tracked p,
              has-cons v rest p,
              find?-filter (λ f. f.path) v p c.entries,
              text_iff v p,
            );
          })
  ]

  -- The list of the cache itself does not matter to the invariant with another list.
  relist :
      (released : List String) (c : Cache Image)
      → IsValidWith released c
      → IsValid (record c { lru = released })
  relist released c h = record {
    unique = h.unique;
    accounted = h.accounted;
    once = h.once;
    tracked = h.tracked;
  }

  pub evict_while-IsValid :
      (budget : ℕ) (released : List String) (c : Cache Image)
      → IsValidWith released c
      → IsValid (evict_while budget released c)
  unfolding evict_while
  evict_while-IsValid budget [] c h = relist [] c h
  evict_while-IsValid budget (v ∷ rest) c h = elim (Bool-cases (ltb budget c.total)) [
    | inl e ↦ rw e (evict_while-IsValid budget rest (evict v c) (evict-IsValidWith v rest c h))
    | inr e ↦ rw e (relist (v ∷ rest) c h)
  ]

  pub evict_if_over-IsValid : (c : Cache Image) → IsValid c → IsValid (evict_if_over c)
  unfolding evict_if_over
  evict_if_over-IsValid c h = elim (Bool-cases (is_nonpositive c.max_bytes)) [
    | inl e ↦ rw e h
    | inr e ↦ rw e (evict_while-IsValid (to_ℕ c.max_bytes) c.lru c h)
  ]

  pub new_cache-IsValid : (max_bytes : ℤ) → IsValid (new_cache {Image = Image} max_bytes)
  unfolding new_cache distinct_paths sum_bytes distinct find? any
  new_cache-IsValid max_bytes = record {
    unique = refl;
    accounted = refl;
    once = refl;
    tracked = λ p. refl;
  }

  pub add_entry-IsValid :
      (p : String) (img : Image) (bytes : ℕ) (c : Cache Image)
      → get_entry p c ≡ none
      → IsValid c
      → IsValid (add_entry p img bytes c)
  unfolding distinct_paths sum_bytes find?
  add_entry-IsValid p img bytes c new h = record {
    unique = ground (arith, h.unique, any-find? (at_key (λ e. e.path) p) c.entries new);
    accounted = ground (arith, h.accounted);
    once = h.once;
    tracked = λ q. ground (arith, new, h.tracked q, h.tracked p, text_iff p q);
  }

  pub decode-IsValid :
      (answer : DecodeFn Image) (p : String) (c : Cache Image)
      → IsValid c
      → IsValid (decode answer p c).1
  unfolding decode
  decode-IsValid answer p c h = elim (Option-cases (get_entry p c)) [
    | inl new ↦ elim (Option-cases (answer p)) [
      | inl e ↦ rw (new, e, decode) h
      | inr ((img, bytes), e) ↦
          rw (new, e, decode)
            (evict_if_over-IsValid (add_entry p img bytes c)
              (add_entry-IsValid p img bytes c new h))
    ]
    | inr (x, e) ↦
        rw (e, decode)
          (record {
            unique =
                rw (distinct_paths-update_where count_reference (λ f. refl) (λ f. refl) p c.entries)
                  h.unique;
            accounted =
                rw (sum_bytes-update_where count_reference (λ f. refl) (λ f. refl) p c.entries)
                  h.accounted;
            once = distinct-remove_from_lru p c.lru h.once;
            tracked = λ q. ground (
              arith,
              has-remove_from_lru p c.lru h.once q,
              h.tracked q,
              find?-update_where (λ f. f.path) count_reference (λ f. refl) p q c.entries,
              text_iff p q,
            );
          })
  ]

  counted-IsValidWith :
      (p : String) (x : Entry Image) (c : Cache Image)
      → get_entry p c ≡ some x
      → (x.refcount - 1 == 0) ≡ false
      → IsValid c
      → IsValid (drop_one p c)
  counted-IsValidWith p x c e more h = record {
    unique =
        rw (distinct_paths-update_where drop_reference (λ f. refl) (λ f. refl) p c.entries)
          h.unique;
    accounted =
        rw (sum_bytes-update_where drop_reference (λ f. refl) (λ f. refl) p c.entries) h.accounted;
    once = h.once;
    tracked = λ q. ground (
      arith,
      e,
      h.tracked q,
      h.tracked p,
      find?-update_where (λ f. f.path) drop_reference (λ f. refl) p q c.entries,
      text_iff p q,
    );
  }

  pub freed-IsValid :
      (p : String) (x : Entry Image) (c : Cache Image)
      → get_entry p c ≡ some x
      → (x.refcount - 1 == 0) ≡ true
      → IsValid c
      → IsValid (enqueue p (drop_one p c))
  unfolding any
  freed-IsValid p x c e last h = record {
    unique =
        rw (distinct_paths-update_where drop_reference (λ f. refl) (λ f. refl) p c.entries)
          h.unique;
    accounted =
        rw (sum_bytes-update_where drop_reference (λ f. refl) (λ f. refl) p c.entries) h.accounted;
    once =
        distinct-append (remove_from_lru p c.lru) p (distinct-remove_from_lru p c.lru h.once)
          (ground (arith, has-remove_from_lru p c.lru h.once p, beq_self p));
    tracked = λ q. ground (
      arith,
      e,
      h.tracked q,
      has-append (remove_from_lru p c.lru) (p ∷ []) q,
      has-remove_from_lru p c.lru h.once q,
      find?-update_where (λ f. f.path) drop_reference (λ f. refl) p q c.entries,
      text_iff p q,
    );
  }

  pub release-IsValid : (p : String) (c : Cache Image) → IsValid c → IsValid (release p c)
  unfolding release
  release-IsValid p c h = elim (Option-cases (get_entry p c)) [
    | inl e ↦ rw (e, release) h
    | inr (x, e) ↦ elim (Bool-cases (x.refcount - 1 == 0)) [
      | inl last ↦
          rw (e, release, last)
            (evict_if_over-IsValid (enqueue p (drop_one p c)) (freed-IsValid p x c e last h))
      | inr more ↦ rw (e, release, more) (counted-IsValidWith p x c e more h)
    ]
  ]
