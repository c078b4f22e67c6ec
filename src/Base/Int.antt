-- ===== src/Base/Int.antt =====
-- Go's signed integers. `negsuc n` is -(n + 1); `to_int64` is the wrap-around of 64 bits.
use Prim.Native.Nat.{ℕ, ◌+◌, ◌-◌, ◌%◌, ◌^◌}
use mathlib.Core.Path.{◌≡◌, ap}
use mathlib.Core.Bool.{Bool, true, false}
use stonesuite_notify.Base.Tests.{ltb, leb, nat_eq, nat_eq→eq, if◌then◌else◌}

pub data ℤ : Type 0 where
  pos : ℕ → ℤ
  negsuc : ℕ → ℤ

abbrev pub ltℤ : ℤ → ℤ → Bool
ltℤ (pos a) (pos b) = ltb a b
ltℤ (pos a) (negsuc b) = false
ltℤ (negsuc a) (pos b) = true
ltℤ (negsuc a) (negsuc b) = ltb b a

abbrev pub leℤ : ℤ → ℤ → Bool
leℤ (pos a) (pos b) = leb a b
leℤ (pos a) (negsuc b) = false
leℤ (negsuc a) (pos b) = true
leℤ (negsuc a) (negsuc b) = leb b a

abbrev pub eqℤ : ℤ → ℤ → Bool
eqℤ (pos a) (pos b) = nat_eq a b
eqℤ (negsuc a) (negsuc b) = nat_eq a b
eqℤ _ _ = false

-- The signed 64-bit value of a number's low 64 bits.
unfoldable pub to_int64 : ℕ → ℤ
to_int64 n = let m = n % 2 ^ 64 in if ltb m (2 ^ 63) then pos m else negsuc (2 ^ 64 - 1 - m)

-- A point in time moved by a duration; times are natural numbers, so it stops at 0.
abbrev pub add_duration : ℕ → ℤ → ℕ
add_duration t (pos n) = t + n
add_duration t (negsuc n) = t - (n + 1)

pub eqℤ→eq : (a b : ℤ) → eqℤ a b ≡ true → a ≡ b
eqℤ→eq (pos a) (pos b) h = ap pos (nat_eq→eq a b h)
eqℤ→eq (negsuc a) (negsuc b) h = ap negsuc (nat_eq→eq a b h)
eqℤ→eq (pos a) (negsuc b) h = cc
eqℤ→eq (negsuc a) (pos b) h = cc
