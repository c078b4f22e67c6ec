-- ===== src/Inbound/Jobs/Delay.antt =====
-- The delay between two attempts at a file.
use Prim.Native.Nat.{min}
use native.Mathlib.Nat.{pow-suc}
use stonesuite_notify.Base.{
  ℕ, zero, suc, ◌*◌, ◌^◌, ◌≤◌, ◌≡◌, ap, ◌∙◌, inl, inr, arith, ltb, leb, if◌then◌else◌, Bool-cases,
}
use stonesuite_notify.Base.Int.{pos}
use stonesuite_notify.Inbound.Jobs.{double_up, job_backoff, job_backoff_base, job_backoff_max}

pow_pos : (n : ℕ) → 1 ≤ 2 ^ n
pow_pos zero = omega arith
pow_pos (suc n) = rw pow-suc (omega (arith, pow_pos n))

double_up-min :
    (turns d : ℕ) → min job_backoff_max (double_up turns d) ≡ min job_backoff_max (d * 2 ^ turns)
unfolding double_up
double_up-min zero d = omega arith
double_up-min (suc turns) d = elim (Bool-cases (ltb d job_backoff_max)) [
  | inl e ↦ rw e (double_up-min turns (d * 2) ∙ ap (min job_backoff_max) (doubled turns))
  | inr e ↦ rw e (capped (2 ^ suc turns) (ground arith) (pow_pos (suc turns)))
]
  where
    doubled : (n : ℕ) → d * 2 * 2 ^ n ≡ d * 2 ^ suc n
    doubled n = rw pow-suc (grind arith)

    capped :
        (m : ℕ) → job_backoff_max ≤ d → 1 ≤ m → min job_backoff_max d ≡ min job_backoff_max (d * m)
    capped zero high low = absurd (omega arith)
    capped (suc m) high low = omega (arith, grows m)
      where
        grows : (k : ℕ) → d ≤ d * suc k
        grows k = grind arith

-- The wait after the n-th attempt at a file, for every n from 1 on, is min(30m, 15s * 2^(n-1)); the
-- doubling stops at the cap, so that nothing overflows.
pub job_backoff_documented :
    (n : ℕ) → job_backoff (pos (suc n)) ≡ min job_backoff_max (job_backoff_base * 2 ^ n)
unfolding job_backoff
job_backoff_documented n =
    capped_min (double_up n job_backoff_base) ∙ double_up-min n job_backoff_base
  where
    capped_min :
        (d : ℕ) → (if leb d job_backoff_max then d else job_backoff_max) ≡ min job_backoff_max d
    capped_min d = ground arith
