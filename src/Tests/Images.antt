-- ===== src/Tests/Images.antt =====
-- A frame of two rows with one thumbnail, in an empty cache.
use wachat.Prelude.{ℕ, ◌≡◌, refl, String, inr, some, List, [], ◌∷◌, find?, any, arith}
use wachat.Prelude.Int.{pos}
use wachat.Store.Schema.{Message}
use wachat.Media.Cache.{DecodeFn, new_cache}
use wachat.Media.Cache.Paths.{has, distinct}
use wachat.Media.Cache.Valid.{new_cache-IsValid}
use wachat.Media.Tracker.{Tracker, new_tracker}
use wachat.Media.Tracker.Matched.{IsWalk, IsTracking, IsMatched}
use wachat.Ui.View.Images.{
  is_drawn, layout_images, layout_images-IsTracking, layout_images-IsMatched,
}
use wachat.Tests.Data.{hello, world}

abbrev decoder : DecodeFn ℕ
decoder p = some (1, 4)

abbrev key_order : List String → List String
key_order ps = ps

key_order-IsWalk : IsWalk key_order
key_order-IsWalk = record { once = λ ps h. h; same_keys = λ ps p. refl }

abbrev cold : Tracker ℕ
cold = new_tracker (new_cache (pos 3))

cold-IsTracking : IsTracking cold
unfolding new_tracker new_cache find? any distinct
cold-IsTracking = record {
  sound = (new_cache-IsValid (pos 3), inr (inr refl));
  once = refl;
  bounded = λ p. omega arith;
}

cold-IsMatched : IsMatched cold
unfolding new_tracker new_cache find? any
cold-IsMatched p = refl

abbrev on_screen : List Message
on_screen = record hello { media_path = "h.jpg" } ∷ world ∷ []

layout_images-IsTracking_example :
    IsTracking (layout_images decoder key_order on_screen cold).1
    × ((p : String)
        → has (layout_images decoder key_order on_screen cold).1.visible p ≡ is_drawn p on_screen)
layout_images-IsTracking_example =
    layout_images-IsTracking decoder key_order key_order-IsWalk on_screen cold cold-IsTracking

layout_images-IsMatched_example : IsMatched (layout_images decoder key_order on_screen cold).1
layout_images-IsMatched_example =
    layout_images-IsMatched decoder key_order key_order-IsWalk on_screen cold cold-IsTracking
      cold-IsMatched (λ p. refl)
