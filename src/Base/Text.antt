-- ===== src/Base/Text.antt =====
-- Go's `strings` and `utf8` functions on texts as sequences of code points.
use Prim.Native.Nat.{ℕ, zero, suc, ◌+◌, ◌≤◌}
use Prim.Native.Char.{Char, code}
use Prim.Native.String
use Prim.Native.String.{String, [], ◌∷◌}
use mathlib.Core.Path.{◌≡◌}
use mathlib.Core.Bool.{Bool, ◌&&◌, ◌||◌}
use native.Mathlib.Omega.{arith}
use text.Mathlib.TextLemmas.{nil-append, cons-append}
use stonesuite_notify.Base.Tests.{leb, nat_eq, if◌then◌else◌}

abbrev pub between : ℕ → ℕ → ℕ → Bool
between lo hi c = leb lo c && leb c hi

-- unicode.IsSpace
unfoldable pub is_space : Char → Bool
is_space ch =
    let c = code ch in
    between 9 13 c
    || nat_eq c 32
    || nat_eq c 0x85
    || nat_eq c 0xa0
    || nat_eq c 0x1680
    || between 0x2000 0x200a c
    || nat_eq c 0x2028
    || nat_eq c 0x2029
    || nat_eq c 0x202f
    || nat_eq c 0x205f
    || nat_eq c 0x3000

unfoldable pub trim_left : String → String
trim_left [] = []
trim_left (c ∷ s) = if is_space c then trim_left s else c ∷ s

-- A character in front of a text whose right end is trimmed already.
abbrev trim_cons : Char → String → String
trim_cons c [] = if is_space c then [] else c ∷ []
trim_cons c (d ∷ s) = c ∷ d ∷ s

unfoldable pub trim_right : String → String
trim_right [] = []
trim_right (c ∷ s) = trim_cons c (trim_right s)

-- strings.TrimSpace
unfoldable pub trim_space : String → String
unfolding trim_left trim_right is_space
trim_space s = trim_right (trim_left s)

-- utf8.RuneCountInString
abbrev pub rune_count : String → ℕ
rune_count [] = 0
rune_count (c ∷ s) = suc (rune_count s)

-- string([]rune(s)[:n]), for n at most the length
abbrev pub take_runes : ℕ → String → String
take_runes zero s = []
take_runes (suc n) [] = []
take_runes (suc n) (c ∷ s) = c ∷ take_runes n s

infixl 65 ◌+++◌
abbrev pub ◌+++◌ : String → String → String
s +++ t = String.◌++◌ s t

pub rune_count-take_runes : (n : ℕ) (s : String) → rune_count (take_runes n s) ≤ n
rune_count-take_runes zero s = omega arith
rune_count-take_runes (suc n) [] = omega arith
rune_count-take_runes (suc n) (c ∷ s) = omega (arith, rune_count-take_runes n s)

pub rune_count-append : (s t : String) → rune_count (s +++ t) ≡ rune_count s + rune_count t
rune_count-append [] t = rw nil-append (omega arith)
rune_count-append (c ∷ s) t = rw cons-append (omega (arith, rune_count-append s t))
