-- ===== src/Base/Utf8/Prefix.antt =====
-- The longest beginning of a text that fits into a number of bytes, and the bytes of an encoding.
use Prim.Native.Char.{code}
use stonesuite_notify.Base.{
  ℕ, ◌-◌, ◌≤◌, ◌≡◌, true, false, List, [], ◌∷◌, length, length-append, leb, if◌then◌else◌, String,
  arith, Bool-cases, leb→le, inl, inr,
}
use stonesuite_notify.Base.Utf8.{encode_code, encode, rune_start}

-- Whole characters only, as many as `max` bytes hold.
unfoldable pub fit : ℕ → String → String
fit max String.[] = String.[]
fit max (String.◌∷◌ c s) =
    let width = length (encode_code (code c)) in
    let rest = fit (max - width) s in if leb width max then String.◌∷◌ c rest else String.[]

-- Bytes that are no start of a character.
abbrev pub Inside : List ℕ → Type 0
Inside [] = Unit
Inside (b ∷ s) = (rune_start b ≡ false) × Inside s

-- A character's bytes: a start, and bytes inside.
abbrev pub IsChar : List ℕ → Type 0
IsChar [] = ⊥
IsChar (b ∷ s) = (rune_start b ≡ true) × Inside s

pub encode_code-IsChar : (c : ℕ) → IsChar (encode_code c)
unfolding rune_start
encode_code-IsChar c = ground arith

pub length-encode-fit : (max : ℕ) (s : String) → length (encode (fit max s)) ≤ max
unfolding encode fit
length-encode-fit max String.[] = omega arith
length-encode-fit max (String.◌∷◌ c s) =
    elim (Bool-cases (leb (length (encode_code (code c))) max)) [
      | inl e ↦ rw e (
          omega (
            arith,
            length-append (encode_code (code c))
                (encode (fit (max - length (encode_code (code c))) s)),
            length-encode-fit (max - length (encode_code (code c))) s,
            leb→le (length (encode_code (code c))) max e,
          ))
      | inr e ↦ rw e (omega arith)
    ]
