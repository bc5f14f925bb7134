-- ===== src/Prelude/Texts.antt =====
-- Texts as lists of code points, where the program walks them.
use Prim.Native.Nat.{ℕ, ◌+◌, ◌/◌, ◌%◌}
use Prim.Native.Char.{code}
use Prim.Native.String.{String}
use mathlib.Core.Bool.{Bool, true, false, ◌&&◌, ◌||◌}
use mathlib.Core.Option.{Option, none, some}
use mathlib.Core.List.{List, [], ◌∷◌, ◌++◌, reverse}
use wachat.Prelude.Tests.{leb, ◌==◌, nat_eq, if◌then◌else◌}

abbrev pub Runes : Type 0
Runes = List ℕ

-- The code points of a text. `String` has its own `[]` and `∷`.
abbrev pub runes : String → Runes
runes String.[] = []
runes (String.◌∷◌ c s) = code c ∷ runes s

-- unicode.IsSpace
abbrev pub is_space : ℕ → Bool
is_space c =
    (leb 9 c && leb c 13)
    || c == 32
    || c == 0x85
    || c == 0xa0
    || c == 0x1680
    || (leb 0x2000 c && leb c 0x200a)
    || c == 0x2028
    || c == 0x2029
    || c == 0x202f
    || c == 0x205f
    || c == 0x3000

unfoldable pub trim_left : Runes → Runes
trim_left [] = []
trim_left (c ∷ s) = let rest = trim_left s in if is_space c then rest else c ∷ s

-- strings.TrimSpace
unfoldable pub trim_space : Runes → Runes
unfolding trim_left
trim_space s = reverse (trim_left (reverse (trim_left s)))

-- The bytes of a text.
abbrev pub utf8_of : ℕ → List ℕ
utf8_of c =
    if leb c 0x7f
    then c ∷ []
    else if leb c 0x7ff
    then (0xc0 + c / 64) ∷ (0x80 + c % 64) ∷ []
    else if leb c 0xffff
    then (0xe0 + c / 4096) ∷ (0x80 + c / 64 % 64) ∷ (0x80 + c % 64) ∷ []
    else (0xf0 + c / 262144) ∷ (0x80 + c / 4096 % 64) ∷ (0x80 + c / 64 % 64) ∷ (0x80 + c % 64) ∷ []

unfoldable pub utf8 : Runes → List ℕ
utf8 [] = []
utf8 (c ∷ s) = utf8_of c ++ utf8 s

abbrev pub same_runes : Runes → Runes → Bool
same_runes [] [] = true
same_runes [] (d ∷ t) = false
same_runes (c ∷ s) [] = false
same_runes (c ∷ s) (d ∷ t) = let rest = same_runes s t in c == d && rest

-- What stands before a suffix: strings.HasSuffix and strings.TrimSuffix.
unfoldable pub strip_suffix : Runes → Runes → Option Runes
strip_suffix suffix [] = if same_runes [] suffix then some [] else none
strip_suffix suffix (c ∷ s) =
    let rest = strip_suffix suffix s in
    if same_runes (c ∷ s) suffix then some [] else elim rest [ none ↦ none | some t ↦ some (c ∷ t) ]
