-- ===== src/Media/Cache/Paths.antt =====
-- The released paths and the entries as sets: membership, absence of duplicates, and the sum.
use wachat.Prelude.{
  ℕ, ◌+◌, ◌≡◌, refl, String, Bool, true, false, not, ◌&&◌, ◌||◌, some, List, [], ◌∷◌, ◌++◌, ◌==◌,
  text_eq, text_iff, any, find?, filter, update_where, arith,
}
use wachat.Prelude.Tables.{at_key}
use wachat.Media.Cache.{Entry, remove_from_lru}

abbrev pub has : List String → String → Bool
has ps p = any (λ q. q == p) ps

-- No path stands twice.
unfoldable pub distinct : List String → Bool
distinct [] = true
distinct (p ∷ ps) = not (has ps p) && distinct ps

pub has-cons : (q : String) (ps : List String) (p : String) → has (q ∷ ps) p ≡ (q == p || has ps p)
unfolding any
has-cons q ps p = ground arith

pub has-append : (ps qs : List String) (p : String) → has (ps ++ qs) p ≡ (has ps p || has qs p)
unfolding any
has-append [] qs p = refl
has-append (r ∷ ps) qs p = ground (arith, has-append ps qs p)

pub distinct-append :
    (ps : List String) (p : String)
    → distinct ps ≡ true
    → has ps p ≡ false
    → distinct (ps ++ p ∷ []) ≡ true
unfolding distinct any
distinct-append [] p d new = refl
distinct-append (r ∷ ps) p d new =
    ground (arith, distinct-append ps p, has-append ps (p ∷ []) r, text_iff r p, text_iff p r)

pub has-remove_from_lru :
    (p : String) (qs : List String)
    → distinct qs ≡ true
    → (q : String) → has (remove_from_lru p qs) q ≡ (not (p == q) && has qs q)
unfolding any remove_from_lru distinct
has-remove_from_lru p [] u q = ground arith
has-remove_from_lru p (r ∷ qs) u q =
    ground
      (arith, has-remove_from_lru p qs (ground arith) q, text_iff r p, text_iff r q, text_iff p q)

pub distinct-remove_from_lru :
    (p : String) (qs : List String) → distinct qs ≡ true → distinct (remove_from_lru p qs) ≡ true
unfolding remove_from_lru distinct
distinct-remove_from_lru p [] u = refl
distinct-remove_from_lru p (r ∷ qs) u =
    ground (arith, distinct-remove_from_lru p qs, has-remove_from_lru p qs (ground arith) r)

module _ {Image : Type 0} where
  unfoldable pub distinct_paths : List (Entry Image) → Bool
  distinct_paths [] = true
  distinct_paths (e ∷ es) = not (any (at_key (λ f. f.path) e.path) es) && distinct_paths es

  unfoldable pub sum_bytes : List (Entry Image) → ℕ
  sum_bytes [] = 0
  sum_bytes (e ∷ es) = e.bytes + sum_bytes es

  module _ (f : Entry Image → Entry Image) (keeps_path : (e : Entry Image) → (f e).path ≡ e.path)
      (keeps_bytes : (e : Entry Image) → (f e).bytes ≡ e.bytes) (p : String) where
    any-path-update_where :
        (q : String) (es : List (Entry Image))
        → any (at_key (λ e. e.path) q) (update_where (at_key (λ e. e.path) p) f es)
          ≡ any (at_key (λ e. e.path) q) es
    unfolding any update_where
    any-path-update_where q [] = refl
    any-path-update_where q (e ∷ es) = ground (arith, any-path-update_where q es, keeps_path e)

    pub distinct_paths-update_where :
        (es : List (Entry Image))
        → distinct_paths (update_where (at_key (λ e. e.path) p) f es) ≡ distinct_paths es
    unfolding update_where distinct_paths
    distinct_paths-update_where [] = refl
    distinct_paths-update_where (e ∷ es) =
        ground
          (arith, distinct_paths-update_where es, any-path-update_where e.path es, keeps_path e)

    pub sum_bytes-update_where :
        (es : List (Entry Image))
        → sum_bytes (update_where (at_key (λ e. e.path) p) f es) ≡ sum_bytes es
    unfolding update_where sum_bytes
    sum_bytes-update_where [] = refl
    sum_bytes-update_where (e ∷ es) = ground (arith, sum_bytes-update_where es, keeps_bytes e)

  any-filter :
      (p q : String) (es : List (Entry Image))
      → any (at_key (λ e. e.path) q) es ≡ false
      → any (at_key (λ e. e.path) q) (filter (λ e. not (at_key (λ f. f.path) p e)) es) ≡ false
  unfolding any filter
  any-filter p q [] h = refl
  any-filter p q (e ∷ es) h = ground (arith, any-filter p q es)

  pub distinct_paths-filter :
      (p : String) (es : List (Entry Image))
      → distinct_paths es ≡ true
      → distinct_paths (filter (λ e. not (at_key (λ f. f.path) p e)) es) ≡ true
  unfolding filter distinct_paths
  distinct_paths-filter p [] h = refl
  distinct_paths-filter p (e ∷ es) h =
      ground (arith, distinct_paths-filter p es, any-filter p e.path es)

  sum_bytes-absent :
      (p : String) (es : List (Entry Image))
      → any (at_key (λ e. e.path) p) es ≡ false
      → sum_bytes (filter (λ e. not (at_key (λ f. f.path) p e)) es) ≡ sum_bytes es
  unfolding any filter sum_bytes
  sum_bytes-absent p [] h = refl
  sum_bytes-absent p (e ∷ es) h = ground (arith, sum_bytes-absent p es)

  pub sum_bytes-filter :
      (p : String) (es : List (Entry Image)) (e : Entry Image)
      → distinct_paths es ≡ true
      → find? (at_key (λ f. f.path) p) es ≡ some e
      → sum_bytes (filter (λ f. not (at_key (λ g. g.path) p f)) es) + e.bytes ≡ sum_bytes es
  unfolding find? filter sum_bytes distinct_paths
  sum_bytes-filter p [] e d h = ground arith
  sum_bytes-filter p (f ∷ es) e d h =
      ground (arith, sum_bytes-filter p es e, sum_bytes-absent p es, text_iff f.path p)
