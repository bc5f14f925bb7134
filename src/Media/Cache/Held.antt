-- ===== src/Media/Cache/Held.antt =====
-- What callers hold: the reference counts follow the calls, and a held image is not evicted.
use wachat.Prelude.{
  ℕ, ◌+◌, ◌-◌, ◌≡◌, refl, inl, inr, String, false, ◌&&◌, Option, none, some, List, [], ◌∷◌, ◌==◌,
  nat_eq, text_eq, text_iff, find?, arith, if◌then◌else◌, Option-cases, Bool-cases,
}
use wachat.Prelude.Int.{is_nonpositive, to_ℕ}
use wachat.Prelude.Tables.{is_some, find?-update_where, find?-filter}
use wachat.Media.Cache.{
  Cache, Entry, DecodeFn, get_entry, evict, evict_while, evict_if_over, add_entry, decode, release,
  enqueue, drop_one, count_reference, drop_reference,
}
use wachat.Media.Cache.Paths.{has-cons}
use wachat.Media.Cache.Valid.{
  IsValid, IsValidWith, evict-IsValidWith, add_entry-IsValid, freed-IsValid,
}

module _ {Image : Type 0} where
  abbrev pub references : Option (Entry Image) → ℕ
  references none = 0
  references (some e) = e.refcount

  -- The number of references to a path; 0 where it is not stored.
  abbrev pub held : String → Cache Image → ℕ
  held p c = references (get_entry p c)

  -- An image with references.
  abbrev pub in_use : Option (Entry Image) → Option Image
  in_use none = none
  in_use (some e) = if e.refcount == 0 then none else some e.img

  evict-held :
      (v : String) (rest : List String) (c : Cache Image)
      → IsValidWith (v ∷ rest) c
      → (p : String)
      → (held p (evict v c) ≡ held p c)
        × (in_use (get_entry p (evict v c)) ≡ in_use (get_entry p c))
  unfolding evict
  evict-held v rest c h p = elim (Option-cases (get_entry v c)) [
    | inl e ↦ rw (e, evict) (refl, refl)
    | inr (x, e) ↦
        rw (e, evict, find?-filter (λ f. f.path) v p c.entries)
          (ground (arith, e, h.tracked p, has-cons v rest p, text_iff v p))
  ]

  evict_while-held :
      (budget : ℕ) (released : List String) (c : Cache Image)
      → IsValidWith released c
      → (p : String)
      → (held p (evict_while budget released c) ≡ held p c)
        × (in_use (get_entry p (evict_while budget released c)) ≡ in_use (get_entry p c))
  unfolding evict_while
  evict_while-held budget [] c h p = (refl, refl)
  evict_while-held budget (v ∷ rest) c h p =
      let next = evict_while-held budget rest (evict v c) (evict-IsValidWith v rest c h) p in
      let one = evict-held v rest c h p in ground (arith, next.0, next.1, one.0, one.1)

  pub evict_if_over-held :
      (c : Cache Image)
      → IsValid c
      → (p : String)
      → (held p (evict_if_over c) ≡ held p c)
        × (in_use (get_entry p (evict_if_over c)) ≡ in_use (get_entry p c))
  unfolding evict_if_over
  evict_if_over-held c h p = elim (Bool-cases (is_nonpositive c.max_bytes)) [
    | inl e ↦ rw e (refl, refl)
    | inr e ↦ rw e (evict_while-held (to_ℕ c.max_bytes) c.lru c h p)
  ]

  get_entry-add_entry :
      (p : String) (img : Image) (bytes : ℕ) (c : Cache Image) (q : String)
      → get_entry q (add_entry p img bytes c) ≡ (
          if p == q
          then some (record { path = p; img = img; bytes = bytes; refcount = 1 })
          else get_entry q c)
  unfolding find?
  get_entry-add_entry p img bytes c q = refl

  pub held-decode :
      (answer : DecodeFn Image) (p : String) (c : Cache Image)
      → IsValid c
      → (q : String)
      → held q (decode answer p c).1
        ≡ held q c + (if p == q && is_some (decode answer p c).0 then 1 else 0)
  unfolding decode
  held-decode answer p c h q = elim (Option-cases (get_entry p c)) [
    | inl new ↦ elim (Option-cases (answer p)) [
      | inl e ↦ rw (new, e, decode) (ground arith)
      | inr ((img, bytes), e) ↦
          let added = add_entry p img bytes c in
          let kept = evict_if_over-held added (add_entry-IsValid p img bytes c new h) q in
          rw (new, e, decode, kept.0, get_entry-add_entry p img bytes c q)
            (ground (arith, new, text_iff p q))
    ]
    | inr (x, e) ↦
        rw (e, decode, find?-update_where (λ f. f.path) count_reference (λ f. refl) p q c.entries)
          (ground (arith, e, text_iff p q))
  ]

  pub held-release :
      (p : String) (c : Cache Image)
      → IsValid c
      → (q : String) → held q (release p c) ≡ held q c - (if p == q then 1 else 0)
  unfolding release
  held-release p c h q = elim (Option-cases (get_entry p c)) [
    | inl e ↦ rw (e, release) (ground (arith, e, text_iff p q))
    | inr (x, e) ↦
        let dropped = find?-update_where (λ f. f.path) drop_reference (λ f. refl) p q c.entries in
        elim (Bool-cases (x.refcount - 1 == 0)) [
          | inl last ↦
              let kept =
                evict_if_over-held (enqueue p (drop_one p c)) (freed-IsValid p x c e last h) q in
              rw (e, release, last, kept.0, dropped) (ground (arith, e, text_iff p q))
          | inr more ↦ rw (e, release, more, dropped) (ground (arith, e, text_iff p q))
        ]
  ]

  pub in_use-decode :
      (answer : DecodeFn Image) (p : String) (c : Cache Image)
      → IsValid c
      → (q : String)
      → in_use (get_entry q (decode answer p c).1) ≡ (
          if p == q && is_some (decode answer p c).0
          then (decode answer p c).0
          else in_use (get_entry q c))
  unfolding decode
  in_use-decode answer p c h q = elim (Option-cases (get_entry p c)) [
    | inl new ↦ elim (Option-cases (answer p)) [
      | inl e ↦ rw (new, e, decode) (ground arith)
      | inr ((img, bytes), e) ↦
          let added = add_entry p img bytes c in
          let kept = evict_if_over-held added (add_entry-IsValid p img bytes c new h) q in
          rw (new, e, decode, kept.1, get_entry-add_entry p img bytes c q)
            (ground (arith, new, text_iff p q))
    ]
    | inr (x, e) ↦
        rw (e, decode, find?-update_where (λ f. f.path) count_reference (λ f. refl) p q c.entries)
          (ground (arith, e, text_iff p q))
  ]

  pub in_use-release :
      (p : String) (c : Cache Image)
      → IsValid c
      → (q : String) → (p == q) ≡ false
      → in_use (get_entry q (release p c)) ≡ in_use (get_entry q c)
  unfolding release
  in_use-release p c h q other = elim (Option-cases (get_entry p c)) [
    | inl e ↦ rw (e, release) refl
    | inr (x, e) ↦
        let dropped = find?-update_where (λ f. f.path) drop_reference (λ f. refl) p q c.entries in
        elim (Bool-cases (x.refcount - 1 == 0)) [
          | inl last ↦
              let kept =
                evict_if_over-held (enqueue p (drop_one p c)) (freed-IsValid p x c e last h) q in
              rw (e, release, last, kept.1, dropped) (ground (arith, other))
          | inr more ↦ rw (e, release, more, dropped) (ground (arith, other))
        ]
  ]
