-- ===== src/Prelude/Order.antt =====
-- Texts in the order of their code points, which is the order of their bytes in UTF-8.
use mathlib.Core.Path.{◌≡◌, refl}
use mathlib.Core.Bool.{Bool, true, false}
use mathlib.Core.List.{[], ◌∷◌}
use native.Mathlib.Omega.{arith}
use wachat.Prelude.Tests.{ltb, ◌==◌, nat_eq, if◌then◌else◌}
use wachat.Prelude.Texts.{Runes}

unfoldable pub less : Runes → Runes → Bool
less [] [] = false
less [] (y ∷ ys) = true
less (x ∷ xs) [] = false
less (x ∷ xs) (y ∷ ys) = let rest = less xs ys in if x == y then rest else ltb x y

pub less_asym : (a b : Runes) → less a b ≡ true → less b a ≡ false
unfolding less
less_asym [] [] h = refl
less_asym [] (y ∷ ys) h = refl
less_asym (x ∷ xs) [] h = absurd (ground (arith, h))
less_asym (x ∷ xs) (y ∷ ys) h = ground (arith, h, less_asym xs ys)

pub less_trans : (a b c : Runes) → less b a ≡ false → less c b ≡ false → less c a ≡ false
unfolding less
less_trans [] b [] h k = refl
less_trans [] [] (z ∷ zs) h k = refl
less_trans [] (y ∷ ys) (z ∷ zs) h k = refl
less_trans (x ∷ xs) [] c h k = absurd (ground (arith, h))
less_trans (x ∷ xs) (y ∷ ys) [] h k = absurd (ground (arith, k))
less_trans (x ∷ xs) (y ∷ ys) (z ∷ zs) h k = ground (arith, h, k, less_trans xs ys zs)

pub less_total : (a b : Runes) → less a b ≡ false → less b a ≡ false → a ≡ b
unfolding less
less_total [] [] h k = refl
less_total [] (y ∷ ys) h k = absurd (ground (arith, h))
less_total (x ∷ xs) [] h k = absurd (ground (arith, k))
less_total (x ∷ xs) (y ∷ ys) h k = ground (arith, h, k, less_total xs ys)
