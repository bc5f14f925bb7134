-- ===== src/Ui/View/Images.antt =====
-- The thumbnails of a frame: layoutMessages of view.go against the cache and its tracker.
use wachat.Prelude.{
  ◌+◌, ◌≡◌, refl, ◌∙◌, any, false, String, Bool, true, not, ◌&&◌, Option, none, some, List, [], ◌∷◌,
  ◌==◌, text_eq, text_iff, Bool-cases, inl, inr, arith, if◌then◌else◌,
}
use wachat.Prelude.Tables.{is_some}
use wachat.Store.Schema.{Message}
use wachat.Media.Cache.{Cache, DecodeFn, decode}
use wachat.Media.Cache.Paths.{has}
use wachat.Media.Cache.Held.{held}
use wachat.Media.Cache.Sound.{IsSound, calls-IsSound, calls-held}
use wachat.Media.Tracker.{Tracker, set_visible}
use wachat.Media.Tracker.Matched.{
  IsWalk, IsTracking, IsMatched, set_visible-IsTracking, set_visible-IsMatched,
}
use wachat.Ui.View.{balance, thumbnail_for}

-- `v.visiblePaths` after the rows are laid out.
unfoldable pub visible_paths : List Message → List String
visible_paths [] = []
visible_paths (m ∷ ms) =
    let rest = visible_paths ms in if m.media_path == "" then rest else m.media_path ∷ rest

-- Some row has this path, which is not empty.
abbrev pub is_drawn : String → List Message → Bool
is_drawn p ms = not (p == "") && any (λ m. m.media_path == p) ms

has-visible_paths : (p : String) (ms : List Message) → has (visible_paths ms) p ≡ is_drawn p ms
unfolding visible_paths any
has-visible_paths p [] = ground arith
has-visible_paths p (m ∷ ms) = ground (
  arith,
  has-visible_paths p ms,
  text_iff p "",
  text_iff m.media_path "",
  text_iff m.media_path p,
)

visible_paths-named : (ms : List Message) → has (visible_paths ms) "" ≡ false
unfolding visible_paths any
visible_paths-named [] = refl
visible_paths-named (m ∷ ms) = ground (arith, visible_paths-named ms, text_iff m.media_path "")

module _ {Image : Type 0} where
  unfoldable pub row_image : DecodeFn Image → Message → Cache Image → Option Image × Cache Image
  unfolding thumbnail_for
  row_image answer m c =
      if m.media_path == "" then (none, c) else thumbnail_for answer m.media_path c

  -- The rows that the list lays out, in its order.
  unfoldable pub row_images :
      DecodeFn Image → List Message → Cache Image → List (Option Image) × Cache Image
  unfolding row_image
  row_images answer [] c = ([], c)
  row_images answer (m ∷ ms) c =
      let (thumb, c') = row_image answer m c in
      let (thumbs, c'') = row_images answer ms c' in (thumb ∷ thumbs, c'')

  -- The rows are laid out, and then SetVisible is called with their paths.
  unfoldable pub layout_images :
      DecodeFn Image
      → (List String → List String)
      → List Message
      → Tracker Image
      → List (Option Image) × Tracker Image
  unfolding row_images visible_paths
  layout_images answer walk visible t =
      let (thumbs, c) = row_images answer visible t.cache in
      (thumbs, (set_visible answer walk (visible_paths visible) (record t { cache = c })).1)

  balance-held :
      (answer : DecodeFn Image) (path : String) (c : Cache Image) (r : Option Image × Cache Image)
      → IsSound r.1
      → ((p : String) → held p r.1 ≡ held p c + (if path == p && is_some r.0 then 1 else 0))
      → IsSound (balance path r).1 × ((p : String) → held p (balance path r).1 ≡ held p c)
  balance-held answer path c (none, c') h counts = (h, λ p. ground (arith, counts p))
  balance-held answer path c (some i, c') h counts = (
    (calls-IsSound answer path c' h).1,
    λ p. ground (arith, counts p, (calls-held answer path c' h.0 p).1),
  )

  -- A thumbnail leaves a sound cache sound, and every path as often held as before.
  thumbnail_for-held :
      (answer : DecodeFn Image) (path : String) (c : Cache Image)
      → IsSound c
      → IsSound (thumbnail_for answer path c).1
        × ((p : String) → held p (thumbnail_for answer path c).1 ≡ held p c)
  unfolding thumbnail_for
  thumbnail_for-held answer path c h = elim (Bool-cases (path == "")) [
    | inl e ↦ rw e (h, λ p. refl)
    | inr e ↦ rw e (
        balance-held answer path c (decode answer path c) (calls-IsSound answer path c h).0
          (λ p. (calls-held answer path c h.0 p).0))
  ]

  -- A sound cache in which every path is as often held as in the other.
  abbrev IsBalanced : Cache Image → Option Image × Cache Image → Type 0
  IsBalanced c r = IsSound r.1 × ((p : String) → held p r.1 ≡ held p c)

  if-IsBalanced :
      (b : Bool) (c : Cache Image) (r s : Option Image × Cache Image)
      → IsBalanced c r
      → IsBalanced c s
      → IsBalanced c (if b then r else s)
  if-IsBalanced true c r s h k = h
  if-IsBalanced false c r s h k = k

  row_image-IsBalanced :
      (answer : DecodeFn Image) (m : Message) (c : Cache Image)
      → IsSound c
      → IsBalanced c (row_image answer m c)
  unfolding row_image
  row_image-IsBalanced answer m c h =
      if-IsBalanced (m.media_path == "") c (none, c) (thumbnail_for answer m.media_path c)
        (h, λ p. refl) (thumbnail_for-held answer m.media_path c h)

  row_images-held :
      (answer : DecodeFn Image) (ms : List Message) (c : Cache Image)
      → IsSound c
      → IsSound (row_images answer ms c).1
        × ((p : String) → held p (row_images answer ms c).1 ≡ held p c)
  unfolding row_images
  row_images-held answer [] c h = (h, λ p. refl)
  row_images-held answer (m ∷ ms) c h =
      let (sound, same) = row_image-IsBalanced answer m c h in
      let (sound', same') = row_images-held answer ms (row_image answer m c).1 sound in
      (sound', λ p. same' p ∙ same p)

  module _ (answer : DecodeFn Image) (walk : List String → List String) (is_walk : IsWalk walk)
      (visible : List Message) (t : Tracker Image) (h : IsTracking t) where
    abbrev drawn : Tracker Image
    drawn = record t { cache = (row_images answer visible t.cache).1 }

    drawn-IsTracking : IsTracking drawn
    drawn-IsTracking =
        let (sound, same) = row_images-held answer visible t.cache h.sound in
        record { sound = sound; once = h.once; bounded = λ p. ground (arith, same p, h.bounded p) }

    -- A frame, for a map walk that visits each key once: if the cache is sound and every path is
    -- held at most once and only if it is visible, this still holds after the rows have taken their
    -- thumbnails and SetVisible was called with their paths, whatever the decoder answers; the
    -- visible paths are then exactly the ones, other than the empty one, that a row drawn has.
    pub layout_images-IsTracking :
        IsTracking (layout_images answer walk visible t).1
        × ((p : String)
            → has (layout_images answer walk visible t).1.visible p ≡ is_drawn p visible)
    unfolding layout_images
    layout_images-IsTracking =
        let (tracking, keys) =
          set_visible-IsTracking answer walk is_walk (visible_paths visible) drawn
            drawn-IsTracking in
        (
          tracking,
          λ p. ground (
            arith,
            keys p,
            visible_paths-named visible,
            text_iff p "",
            has-visible_paths p visible,
          ),
        )

    -- A frame with a decoder that always has an image, for a map walk that visits each key once: if
    -- every path is held exactly as often as it is visible, it still is after the frame.
    pub layout_images-IsMatched :
        IsMatched t
        → ((p : String) → is_some (answer p) ≡ true)
        → IsMatched (layout_images answer walk visible t).1
    unfolding layout_images
    layout_images-IsMatched matched works =
        set_visible-IsMatched answer walk is_walk (visible_paths visible) drawn drawn-IsTracking
          (λ p. (row_images-held answer visible t.cache h.sound).1 p ∙ matched p) works
