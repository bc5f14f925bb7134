-- ===== src/Media/Cache/Sound.antt =====
-- What the cache promises to its callers, over every call of Decode and Release.
use wachat.Prelude.{
  true, ◌⊎◌, inl, inr, Bool-cases, ◌+◌, ◌-◌, ◌≡◌, String, ◌&&◌, ◌==◌, text_eq, if◌then◌else◌,
}
use wachat.Prelude.Tables.{is_some}
use wachat.Media.Cache.{Cache, DecodeFn, get_entry, decode, release}
use wachat.Media.Cache.Valid.{IsValid, decode-IsValid, release-IsValid}
use wachat.Media.Cache.Budget.{IsWithinBudget, decode-IsWithinBudget, release-IsWithinBudget}
use wachat.Media.Cache.Held.{held, in_use, held-decode, held-release, in_use-decode, in_use-release}

module _ {Image : Type 0} where
  abbrev pub IsSound : Cache Image → Type 0
  IsSound c = IsValid c × IsWithinBudget c

  -- If the paths of the entries are distinct, the total is the sum of their bytes, the released
  -- list has exactly the entries without references, each once, and the total exceeds a positive
  -- budget only where that list is empty, then all of this still holds after Decode, whatever
  -- the decoder answers, and after Release.
  pub calls-IsSound :
      (answer : DecodeFn Image) (p : String) (c : Cache Image)
      → IsSound c
      → IsSound (decode answer p c).1 × IsSound (release p c)
  calls-IsSound answer p c h = (
    (decode-IsValid answer p c h.0, decode-IsWithinBudget answer p c h.1),
    (release-IsValid p c h.0, release-IsWithinBudget p c h.1),
  )

  -- In a valid cache, Decode that returns an image adds one reference to its path, Release takes
  -- one away unless there is none, and neither changes the references of another path, in spite
  -- of the evictions that they make.
  pub calls-held :
      (answer : DecodeFn Image) (p : String) (c : Cache Image)
      → IsValid c
      → (q : String)
      → (held q (decode answer p c).1
          ≡ held q c + (if p == q && is_some (decode answer p c).0 then 1 else 0))
        × (held q (release p c) ≡ held q c - (if p == q then 1 else 0))
  calls-held answer p c h q = (held-decode answer p c h q, held-release p c h q)

  -- In a valid cache, the image that Decode returns is the one that is then in use under its path,
  -- and neither Decode nor Release of a path touches the images in use under other paths.
  pub calls-in_use :
      (answer : DecodeFn Image) (p : String) (c : Cache Image)
      → IsValid c
      → (q : String)
      → (in_use (get_entry q (decode answer p c).1) ≡ (
          if p == q && is_some (decode answer p c).0
          then (decode answer p c).0
          else in_use (get_entry q c)))
        × (((p == q) ≡ true) ⊎ (in_use (get_entry q (release p c)) ≡ in_use (get_entry q c)))
  calls-in_use answer p c h q = (
    in_use-decode answer p c h q,
    elim (Bool-cases (p == q)) [ inl e ↦ inl e | inr e ↦ inr (in_use-release p c h q e) ],
  )
