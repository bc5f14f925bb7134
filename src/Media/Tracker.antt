-- ===== src/Media/Tracker.antt =====
-- internal/media/tracker.go: from the set of visible paths to calls of Decode and Release.
pub mod Matched
use wachat.Prelude.{
  ℕ, String, Bool, not, List, [], ◌∷◌, ◌==◌, text_eq, any, filter, length, if◌then◌else◌,
}
use wachat.Media.Cache.{Cache, DecodeFn, decode, release}
use wachat.Media.Cache.Paths.{has}

-- `visible` is a set: the paths in it, each once, in the order in which the map is walked.
pub record Tracker (Image : Type 0) : Type 0 where
  pub cache : Cache Image
  pub visible : List String

-- `next[p] = struct{}{}` for each path that is not empty.
unfoldable pub collect : List String → List String
collect [] = []
collect (p ∷ ps) =
    let rest = collect ps in if p == "" then rest else if has rest p then rest else p ∷ rest

module _ {Image : Type 0} where
  unfoldable pub new_tracker : Cache Image → Tracker Image
  new_tracker c = record { cache = c; visible = [] }

  unfoldable pub release_all : List String → Cache Image → Cache Image
  release_all [] c = c
  release_all (p ∷ ps) c = release_all ps (release p c)

  unfoldable pub decode_all : DecodeFn Image → List String → Cache Image → Cache Image
  decode_all answer [] c = c
  decode_all answer (p ∷ ps) c = decode_all answer ps (decode answer p c).1

  -- The counts are the numbers of paths decoded and released. `walk` is the order in which the map
  -- `next` is walked.
  unfoldable pub set_visible :
      DecodeFn Image
      → (List String → List String)
      → List String
      → Tracker Image
      → (ℕ × ℕ) × Tracker Image
  unfolding collect release_all decode_all
  set_visible answer walk paths t =
      let next = walk (collect paths) in
      let gone = filter (λ p. not (has next p)) t.visible in
      let come = filter (λ p. not (has t.visible p)) next in
      (
        (length come, length gone),
        record { cache = decode_all answer come (release_all gone t.cache); visible = next },
      )

  unfoldable pub clear : Tracker Image → ℕ × Tracker Image
  unfolding release_all
  clear t = (length t.visible, record { cache = release_all t.visible t.cache; visible = [] })
