-- ===== src/Tests/Media.antt =====
-- The cache and its tracker on a budget of ten bytes, with images of six.
use wachat.Prelude.{
  true, ◌⊎◌, ℕ, ◌+◌, ◌-◌, ◌≡◌, refl, inr, String, ◌&&◌, some, ◌==◌, text_eq, find?, filter,
  update_where, if◌then◌else◌,
}
use wachat.Prelude.Int.{ℤ}
use wachat.Prelude.Tables.{is_some}
use wachat.Media.Cache.{
  Cache, DecodeFn, new_cache, decode, release, get_entry, evict, evict_while, evict_if_over,
  remove_from_lru, stats,
}
use wachat.Media.Cache.Valid.{new_cache-IsValid}
use wachat.Media.Cache.Held.{held, in_use}
use wachat.Media.Cache.Sound.{IsSound, calls-IsSound, calls-held, calls-in_use}

abbrev row_a : String
row_a = "a"

abbrev row_b : String
row_b = "b"

abbrev six_bytes : DecodeFn ℕ
six_bytes p = some (7, 6)

abbrev fresh : Cache ℕ
fresh = new_cache (ℤ.pos 10)

fresh-IsSound : IsSound fresh
unfolding new_cache
fresh-IsSound = (new_cache-IsValid (ℤ.pos 10), inr (inr refl))

-- One image shown and released again.
abbrev shown : Cache ℕ
shown = (decode six_bytes row_a fresh).1

abbrev hidden : Cache ℕ
hidden = release row_a shown

shown-IsSound : IsSound shown
shown-IsSound = (calls-IsSound six_bytes row_a fresh fresh-IsSound).0

hidden-IsSound : IsSound hidden
hidden-IsSound = (calls-IsSound six_bytes row_a shown shown-IsSound).1

-- The second image does not fit: the released one goes.
evicts_released : stats (decode six_bytes row_b hidden).1 ≡ (1, 6)
unfolding new_cache decode release evict_if_over evict_while evict remove_from_lru stats find?
    filter update_where
evicts_released = refl

-- A held one stays, over the budget.
keeps_held : stats (decode six_bytes row_b shown).1 ≡ (2, 12)
unfolding new_cache decode release evict_if_over evict_while evict remove_from_lru stats find?
    filter update_where
keeps_held = refl

calls-IsSound_example : IsSound (decode six_bytes row_b hidden).1 × IsSound (release row_b hidden)
calls-IsSound_example = calls-IsSound six_bytes row_b hidden hidden-IsSound

calls-held_example :
    (held row_b (decode six_bytes row_b hidden).1
      ≡ held row_b hidden
        + (if row_b == row_b && is_some (decode six_bytes row_b hidden).0 then 1 else 0))
    × (held row_b (release row_b hidden) ≡ held row_b hidden - (if row_b == row_b then 1 else 0))
calls-held_example = calls-held six_bytes row_b hidden hidden-IsSound.0 row_b

calls-in_use_example :
    (in_use (get_entry row_a (decode six_bytes row_b shown).1) ≡ (
      if row_b == row_a && is_some (decode six_bytes row_b shown).0
      then (decode six_bytes row_b shown).0
      else in_use (get_entry row_a shown)))
    × (((row_b == row_a) ≡ true)
        ⊎ (in_use (get_entry row_a (release row_b shown)) ≡ in_use (get_entry row_a shown)))
calls-in_use_example = calls-in_use six_bytes row_b shown shown-IsSound.0 row_a
