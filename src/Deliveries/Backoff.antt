-- ===== src/Deliveries/Backoff.antt =====
-- The delay between two attempts of a delivery.
use stonesuite_notify.Base.{
  ℕ, zero, suc, ◌*◌, ◌^◌, ◌≤◌, ◌<◌, ◌≡◌, refl, inl, inr, Bool, true, List, [], ◌∷◌, arith, all,
  nat_eq, nat_eq→eq, Bool-cases,
}
use stonesuite_notify.Base.Int.{pos, ltℤ, eqℤ, eqℤ→eq}
use stonesuite_notify.Deliveries.{minute, backoff}
use Prim.Native.Nat.{min}
use native.Mathlib.Nat.{pow-suc}

-- The documented delay before attempt n + 2: min(30m, 1m * 2^n).
abbrev pub documented_delay : ℕ → ℕ
documented_delay n = min (30 * minute) (minute * 2 ^ n)

-- Whether the code's delay before the attempt n + 2 is the documented one.
agrees : ℕ → Bool
agrees n = eqℤ (backoff (suc n)) (pos (documented_delay n))

counts_down : ℕ → List ℕ
counts_down zero = []
counts_down (suc n) = n ∷ counts_down n

agrees_at : (n bound : ℕ) → n < bound → all agrees (counts_down bound) ≡ true → agrees n ≡ true
unfolding counts_down
agrees_at n zero low h = absurd (omega arith)
agrees_at n (suc bound) low h = elim (Bool-cases (nat_eq n bound)) [
  | inl same ↦ rw (nat_eq→eq n bound same) (ground arith)
  | inr other ↦ agrees_at n bound (ground arith) (ground arith)
]

first_delays : all agrees (counts_down 28) ≡ true
unfolding agrees counts_down backoff
first_delays = refl

-- The 29th delay would wrap to a negative duration.
backoff-29 : ltℤ (backoff 29) (pos 0) ≡ true
unfolding backoff
backoff-29 = refl

pow_pos : (n : ℕ) → 1 ≤ 2 ^ n
pow_pos zero = omega arith
pow_pos (suc n) = rw pow-suc (omega (arith, pow_pos n))

documented_delay_bounds :
    (n : ℕ) → (minute ≤ documented_delay n) × (documented_delay n ≤ 30 * minute)
documented_delay_bounds n = omega (arith, pow_pos n)

-- For up to 28 attempts the delay is the documented one, min(30m, 1m * 2^(n-1)), which lies
-- between one and thirty minutes: no multiplication on the way wraps.
pub backoff_documented :
    (n : ℕ)
    → n < 28
    → (backoff (suc n) ≡ pos (documented_delay n))
      × (minute ≤ documented_delay n)
      × (documented_delay n ≤ 30 * minute)
unfolding agrees
backoff_documented n h =
    let (low, high) = documented_delay_bounds n in
    (eqℤ→eq (backoff (suc n)) (pos (documented_delay n)) (agrees_at n 28 h first_delays), low, high)
