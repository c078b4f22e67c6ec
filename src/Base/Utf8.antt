-- ===== src/Base/Utf8.antt =====
-- Texts as the bytes that Go keeps them in: utf8 and the slices of a string.
pub mod Prefix
use stonesuite_notify.Base.{
  ℕ, zero, suc, ◌+◌, ◌*◌, ◌/◌, ◌%◌, ◌-◌, Bool, true, not, List, [], ◌∷◌, ◌++◌, take, length, nat_eq,
  ltb, leb, if◌then◌else◌, String,
}
use Prim.Native.Char.{Char, code}

-- The bytes of one character's encoding, by its code.
abbrev pub encode_code : ℕ → List ℕ
encode_code c =
    if ltb c 0x80
    then c ∷ []
    else if ltb c 0x800
    then (0xc0 + c / 64) ∷ (0x80 + c % 64) ∷ []
    else if ltb c 0x10000
    then (0xe0 + c / 4096) ∷ (0x80 + c / 64 % 64) ∷ (0x80 + c % 64) ∷ []
    else (0xf0 + c / 262144) ∷ (0x80 + c / 4096 % 64) ∷ (0x80 + c / 64 % 64) ∷ (0x80 + c % 64) ∷ []

-- The bytes of a text.
unfoldable pub encode : String → List ℕ
encode String.[] = []
encode (String.◌∷◌ c s) = encode_code (code c) ++ encode s

-- utf8.RuneStart: `b&0xC0 != 0x80`
unfoldable pub rune_start : ℕ → Bool
rune_start b = not (nat_eq (b / 64) 2)

-- `s[i]`, read only where `i` is below the length; 0 stands for what is never read.
abbrev pub byte_at : List ℕ → ℕ → ℕ
byte_at [] i = 0
byte_at (b ∷ s) zero = b
byte_at (b ∷ s) (suc i) = byte_at s i
