-- ===== src/Media/Cache.antt =====
-- internal/media/cache.go: the cache of decoded images with reference counts and eviction.
pub mod Paths
pub mod Valid
pub mod Budget
pub mod Held
pub mod Sound
use wachat.Prelude.{
  ℕ, ◌+◌, ◌-◌, String, Bool, not, Option, none, some, List, [], ◌∷◌, ◌++◌, ◌==◌, nat_eq, text_eq,
  ltb, find?, filter, length, update_where, if◌then◌else◌,
}
use wachat.Prelude.Int.{ℤ, is_nonpositive, to_ℕ}
use wachat.Prelude.Tables.{at_key}

pub record Entry (Image : Type 0) : Type 0 where
  pub path : String
  pub img : Image
  pub bytes : ℕ
  pub refcount : ℕ

-- `entries` is the map: one entry for a path. `lru` has the released paths, the oldest first.
pub record Cache (Image : Type 0) : Type 0 where
  pub max_bytes : ℤ
  pub entries : List (Entry Image)
  pub lru : List String
  pub total : ℕ

-- What the decoder answers for one call: an image and its cost, or an error.
abbrev pub DecodeFn : Type 0 → Type 0
DecodeFn Image = String → Option (Image × ℕ)

-- The first occurrence goes.
unfoldable pub remove_from_lru : String → List String → List String
remove_from_lru p [] = []
remove_from_lru p (q ∷ qs) = let rest = remove_from_lru p qs in if q == p then qs else q ∷ rest

module _ {Image : Type 0} where
  unfoldable pub new_cache : ℤ → Cache Image
  new_cache max_bytes = record { max_bytes = max_bytes; entries = []; lru = []; total = 0 }

  abbrev pub get_entry : String → Cache Image → Option (Entry Image)
  get_entry p c = find? (at_key (λ e. e.path) p) c.entries

  -- `c.total -= e.bytes; delete(c.entries, victim)`
  unfoldable pub evict : String → Cache Image → Cache Image
  evict victim c = elim (get_entry victim c) [
    | none ↦ c
    | some e ↦ record c {
      entries = filter (λ f. not (at_key (λ g. g.path) victim f)) c.entries;
      total = c.total - e.bytes;
    }
  ]

  -- The loop of evictIfOver, over the released paths that are left.
  unfoldable pub evict_while : ℕ → List String → Cache Image → Cache Image
  unfolding evict
  evict_while budget [] c = record c { lru = [] }
  evict_while budget (victim ∷ rest) c =
      let next = evict_while budget rest (evict victim c) in
      if ltb budget c.total then next else record c { lru = victim ∷ rest }

  unfoldable pub evict_if_over : Cache Image → Cache Image
  unfolding evict_while
  evict_if_over c = if is_nonpositive c.max_bytes then c else evict_while (to_ℕ c.max_bytes) c.lru c

  abbrev pub count_reference : Entry Image → Entry Image
  count_reference e = record e { refcount = e.refcount + 1 }

  abbrev pub drop_reference : Entry Image → Entry Image
  drop_reference e = record e { refcount = e.refcount - 1 }

  -- What a miss stores, before the eviction.
  abbrev pub add_entry : String → Image → ℕ → Cache Image → Cache Image
  add_entry p img bytes c = record c {
    entries = record { path = p; img = img; bytes = bytes; refcount = 1 } ∷ c.entries;
    total = c.total + bytes;
  }

  unfoldable pub decode : DecodeFn Image → String → Cache Image → Option Image × Cache Image
  unfolding evict_if_over remove_from_lru
  decode answer p c = elim (get_entry p c) [
    | some e ↦ (
      some e.img,
      record c {
        entries = update_where (at_key (λ f. f.path) p) count_reference c.entries;
        lru = remove_from_lru p c.lru;
      },
    )
    | none ↦ elim (answer p) [
      | none ↦ (none, c)
      | some (img, bytes) ↦ (some img, evict_if_over (add_entry p img bytes c))
    ]
  ]

  -- A count of zero stays at zero: subtraction stops there, as the test `e.refcount > 0` does.
  abbrev pub drop_one : String → Cache Image → Cache Image
  drop_one p c = record c {
    entries = update_where (at_key (λ f. f.path) p) drop_reference c.entries;
  }

  -- The path goes to the end of the released ones.
  abbrev pub enqueue : String → Cache Image → Cache Image
  enqueue p c = record c { lru = remove_from_lru p c.lru ++ p ∷ [] }

  unfoldable pub release : String → Cache Image → Cache Image
  unfolding evict_if_over remove_from_lru
  release p c = elim (get_entry p c) [
    | none ↦ c
    | some e ↦
        if e.refcount - 1 == 0 then evict_if_over (enqueue p (drop_one p c)) else drop_one p c
  ]

  unfoldable pub stats : Cache Image → ℕ × ℕ
  stats c = (length c.entries, c.total)
