-- ===== src/Media/Tracker/Matched.antt =====
-- The tracker's calls of Decode and Release match: a visible path is held once, another never.
use wachat.Prelude.{
  ℕ, ◌+◌, ◌-◌, ◌≤◌, ◌≡◌, refl, String, Bool, true, not, ◌&&◌, none, List, [], ◌∷◌, ◌==◌, text_eq,
  text_iff, any, filter, arith, if◌then◌else◌,
}
use wachat.Prelude.Tables.{is_some}
use wachat.Media.Cache.{Cache, DecodeFn, decode, release}
use wachat.Media.Cache.Paths.{has, distinct}
use wachat.Media.Cache.Held.{held}
use wachat.Media.Cache.Sound.{IsSound, calls-IsSound, calls-held}
use wachat.Media.Tracker.{Tracker, collect, release_all, decode_all, set_visible, clear}

has-collect : (ps : List String) (p : String) → has (collect ps) p ≡ (not (p == "") && has ps p)
unfolding collect any
has-collect [] p = ground arith
has-collect (q ∷ ps) p =
    ground (arith, has-collect ps p, has-collect ps q, text_iff q p, text_iff q "", text_iff p "")

distinct-collect : (ps : List String) → distinct (collect ps) ≡ true
unfolding collect distinct
distinct-collect [] = refl
distinct-collect (q ∷ ps) = ground (arith, distinct-collect ps)

has-filter :
    (f : String → Bool) (ps : List String) (p : String) → has (filter f ps) p ≡ (f p && has ps p)
unfolding any filter
has-filter f [] p = ground arith
has-filter f (q ∷ ps) p = ground (arith, has-filter f ps p, text_iff q p)

distinct-filter :
    (f : String → Bool) (ps : List String) → distinct ps ≡ true → distinct (filter f ps) ≡ true
unfolding filter distinct
distinct-filter f [] d = refl
distinct-filter f (q ∷ ps) d = ground (arith, distinct-filter f ps, has-filter f ps q)

abbrev pub one_if : Bool → ℕ
one_if b = if b then 1 else 0

-- The walk over a map visits each of its keys once.
pub record IsWalk (walk : List String → List String) : Type 0 where
  pub once : (ps : List String) → distinct ps ≡ true → distinct (walk ps) ≡ true
  pub same_keys : (ps : List String) (p : String) → has (walk ps) p ≡ has ps p

module _ {Image : Type 0} where
  release_all-IsSound :
      (ps : List String) (c : Cache Image) → IsSound c → IsSound (release_all ps c)
  unfolding release_all
  release_all-IsSound [] c h = h
  release_all-IsSound (p ∷ ps) c h =
      release_all-IsSound ps (release p c) (calls-IsSound (λ q. none) p c h).1

  decode_all-IsSound :
      (answer : DecodeFn Image) (ps : List String) (c : Cache Image)
      → IsSound c
      → IsSound (decode_all answer ps c)
  unfolding decode_all
  decode_all-IsSound answer [] c h = h
  decode_all-IsSound answer (p ∷ ps) c h =
      decode_all-IsSound answer ps (decode answer p c).1 (calls-IsSound answer p c h).0

  held-release_all :
      (ps : List String) (c : Cache Image)
      → IsSound c
      → distinct ps ≡ true
      → (p : String) → held p (release_all ps c) ≡ held p c - one_if (has ps p)
  unfolding release_all distinct any
  held-release_all [] c h d p = ground arith
  held-release_all (q ∷ ps) c h d p =
      let sound = (calls-IsSound (λ q. none) q c h).1 in
      let rest = held-release_all ps (release q c) sound (ground arith) p in
      let one = (calls-held (λ q. none) q c h.0 p).1 in ground (arith, rest, one, text_iff q p)

  held-decode_all :
      (answer : DecodeFn Image) (ps : List String) (c : Cache Image)
      → IsSound c
      → distinct ps ≡ true
      → (p : String) → (held p (decode_all answer ps c) ≤ held p c + one_if (has ps p))
  unfolding decode_all distinct any
  held-decode_all answer [] c h d p = ground arith
  held-decode_all answer (q ∷ ps) c h d p =
      let sound = (calls-IsSound answer q c h).0 in
      let rest = held-decode_all answer ps (decode answer q c).1 sound (ground arith) p in
      let one = (calls-held answer q c h.0 p).0 in ground (arith, rest, one, text_iff q p)

  is_some-decode :
      (answer : DecodeFn Image) (p : String) (c : Cache Image)
      → is_some (answer p) ≡ true
      → is_some (decode answer p c).0 ≡ true
  unfolding decode
  is_some-decode answer p c works = ground (arith, works)

  module _ (answer : DecodeFn Image) (works : (p : String) → is_some (answer p) ≡ true) where
    held-decode_all_works :
        (ps : List String) (c : Cache Image)
        → IsSound c
        → distinct ps ≡ true
        → (p : String) → held p (decode_all answer ps c) ≡ held p c + one_if (has ps p)
    unfolding decode_all distinct any
    held-decode_all_works [] c h d p = ground arith
    held-decode_all_works (q ∷ ps) c h d p =
        let sound = (calls-IsSound answer q c h).0 in
        let rest = held-decode_all_works ps (decode answer q c).1 sound (ground arith) p in
        let one = (calls-held answer q c h.0 p).0 in
        ground (arith, rest, one, is_some-decode answer q c (works q), text_iff q p)

  -- The cache is sound, no path stands twice in the visible set, and a path is held at most once,
  -- and only if it is visible.
  pub record IsTracking (t : Tracker Image) : Type 0 where
    pub sound : IsSound t.cache
    pub once : distinct t.visible ≡ true
    pub bounded : (p : String) → held p t.cache ≤ one_if (has t.visible p)

  -- A path is held exactly as often as it is visible.
  abbrev pub IsMatched : Tracker Image → Type 0
  IsMatched t = (p : String) → held p t.cache ≡ one_if (has t.visible p)

  module _ (answer : DecodeFn Image) (walk : List String → List String) (is_walk : IsWalk walk)
      (paths : List String) (t : Tracker Image) (h : IsTracking t) where
    next_visible : List String
    next_visible = walk (collect paths)

    has-next_visible : (p : String) → has next_visible p ≡ (not (p == "") && has paths p)
    unfolding next_visible
    has-next_visible p = rw (is_walk.same_keys (collect paths) p) (has-collect paths p)

    distinct-next_visible : distinct next_visible ≡ true
    unfolding next_visible
    distinct-next_visible = is_walk.once (collect paths) (distinct-collect paths)

    abbrev gone : List String
    gone = filter (λ p. not (has next_visible p)) t.visible

    abbrev come : List String
    come = filter (λ p. not (has t.visible p)) next_visible

    held-gone :
        (p : String) → held p (release_all gone t.cache) ≡ held p t.cache - one_if (has gone p)
    held-gone =
        held-release_all gone t.cache h.sound
          (distinct-filter (λ p. not (has next_visible p)) t.visible h.once)

    gone-IsSound : IsSound (release_all gone t.cache)
    gone-IsSound = release_all-IsSound gone t.cache h.sound

    distinct-come : distinct come ≡ true
    distinct-come = distinct-filter (λ p. not (has t.visible p)) next_visible distinct-next_visible

    -- For a map walk that visits each key once: if the cache is sound and every path is held at
    -- most once and only if it is visible, this still holds after SetVisible, whatever the decoder
    -- answers, and the visible paths are then those given, without the empty one.
    pub set_visible-IsTracking :
        IsTracking (set_visible answer walk paths t).1
        × ((p : String)
            → has (set_visible answer walk paths t).1.visible p ≡ (not (p == "") && has paths p))
    unfolding set_visible next_visible
    set_visible-IsTracking = (
      record {
        sound = decode_all-IsSound answer come (release_all gone t.cache) gone-IsSound;
        once = distinct-next_visible;
        bounded = λ p.
            let up = held-decode_all answer come _ gone-IsSound distinct-come p in
            let came = has-filter (λ q. not (has t.visible q)) next_visible p in
            let left = has-filter (λ q. not (has next_visible q)) t.visible p in
            ground (arith, up, held-gone p, came, left, h.bounded p);
      },
      has-next_visible,
    )

    -- For a map walk that visits each key once and a decoder that always has an image: if every
    -- path is held exactly as often as it is visible, this still holds after SetVisible.
    pub set_visible-IsMatched :
        IsMatched t
        → ((p : String) → is_some (answer p) ≡ true)
        → IsMatched (set_visible answer walk paths t).1
    unfolding set_visible next_visible
    set_visible-IsMatched matched works p =
        let up = held-decode_all_works answer works come _ gone-IsSound distinct-come p in
        let came = has-filter (λ q. not (has t.visible q)) next_visible p in
        let left = has-filter (λ q. not (has next_visible q)) t.visible p in
        ground (arith, up, held-gone p, came, left, matched p)

  -- After Clear no path is held and none is visible, if before every path was held at most once
  -- and only if visible in a sound cache, which stays sound.
  pub clear_nothing_held :
      (t : Tracker Image)
      → IsTracking t
      → ((p : String) → held p (clear t).1.cache ≡ 0)
        × ((clear t).1.visible ≡ [])
        × IsSound (clear t).1.cache
  unfolding clear
  clear_nothing_held t h = (
    λ p. ground (arith, held-release_all t.visible t.cache h.sound h.once p, h.bounded p),
    refl,
    release_all-IsSound t.visible t.cache h.sound,
  )
