-- ===== src/EmailEvents/Svix/Window.antt =====
-- Which timestamps of a webhook pass.
use stonesuite_notify.Base.{
  ℕ, ◌+◌, ◌*◌, ◌^◌, ◌≤◌, ◌<◌, ◌≡◌, inl, inr, ◌⊎◌, ◌↔◌, true, leb, arith, Bool-cases,
}
use stonesuite_notify.Base.Int.{pos}
use stonesuite_notify.EmailEvents.Svix.{
  timestamp_tolerance, second, unix_second, time_since, in_window,
}

-- At most five minutes before or after `now`, or so far after it that the difference does not fit.
abbrev pub IsPassed : ℕ → ℕ → Type 0
IsPassed now s =
    ((now ≤ s * second + timestamp_tolerance) × (s * second ≤ now + timestamp_tolerance))
    ⊎ (now + 2 ^ 63 ≤ s * second)

in_window-late :
    (now s : ℕ)
    → s + 62135596800 < 2 ^ 63
    → s * second ≤ now
    → (in_window now (pos s) ≡ true) ↔ (now ≤ s * second + timestamp_tolerance)
unfolding in_window unix_second time_since
in_window-late now s small h = ground (arith, small, h)

in_window-early :
    (now s : ℕ)
    → s + 62135596800 < 2 ^ 63
    → now < s * second
    → (in_window now (pos s) ≡ true)
      ↔ ((s * second ≤ now + timestamp_tolerance) ⊎ (now + 2 ^ 63 ≤ s * second))
unfolding in_window unix_second time_since
in_window-early now s small h = ground (arith, small, h)

-- A timestamp that is no earlier than 1970, and whose second Go's Time can count, passes exactly
-- when it is at most five minutes before or after `now`, or at least 2^63 nanoseconds (292 years)
-- after it: then the difference is the least Duration, which is its own negation.
pub in_window_iff :
    (now s : ℕ) → s + 62135596800 < 2 ^ 63 → (in_window now (pos s) ≡ true) ↔ IsPassed now s
in_window_iff now s small = elim (Bool-cases (leb (s * second) now)) [
  | inl e ↦
      let late : s * second ≤ now = ground (arith, e) in
      let (to, from) = in_window-late now s small late in
      (λ k. inl (to k, omega (arith, late)), λ p. from (not_ahead late p))
  | inr e ↦
      let early : now < s * second = ground (arith, e) in
      let (to, from) = in_window-early now s small early in
      (λ k. ahead early (to k), λ p. from (elim p [ inl i ↦ inl i.1 | inr far ↦ inr far ]))
]
  where
    not_ahead : s * second ≤ now → IsPassed now s → now ≤ s * second + timestamp_tolerance
    not_ahead late (inl i) = i.0
    not_ahead late (inr far) = absurd (omega (arith, late, far))

    ahead :
        now < s * second
        → (s * second ≤ now + timestamp_tolerance) ⊎ (now + 2 ^ 63 ≤ s * second)
        → IsPassed now s
    ahead early (inl near) = inl (omega (arith, early), near)
    ahead early (inr far) = inr far
