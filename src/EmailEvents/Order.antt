-- ===== src/EmailEvents/Order.antt =====
-- Provider statuses only move up in rank, whatever the order of the events.
use mathlib.Core.Path.{subst}
use mathlib.Core.Logic.{∥∥₁_elim}
use mathlib.Core.List.{Perm, Permᴰ}
use Prim.Native.Nat.{max}
use native.Mathlib.Nat.{ℕ_set}
use stonesuite_notify.Base.{
  ℕ, suc, ◌+◌, ◌≤◌, ◌<◌, ◌≡◌, refl, sym, ap, ◌∙◌, ◌⊎◌, inl, inr, String, Bool, true, false, Option,
  none, some, List, [], ◌∷◌, ltb, if◌then◌else◌, arith, Bool-cases, eq_iff, tests, ltb→lt,
}
use stonesuite_notify.EmailEvents.{
  status_rank, or_zero, rank, advance_to, advance, is_problem, status_delayed, status_complained,
  status_bounced, status_failed, status_suppressed,
}

-- The provider status after a sequence of incoming statuses, and the number of them that raise
-- an alert: those that change the status to a problem.
pub advance_all : String → List String → String
advance_all current [] = current
advance_all current (s ∷ ss) = advance_all (advance current s).0 ss

-- The alert condition of `Apply`.
abbrev alerts_on : String × Bool → Bool
alerts_on (next, changed) = if changed then is_problem next else false

pub alerts : String → List String → ℕ
alerts current [] = 0
alerts current (s ∷ ss) =
    let rest = alerts (advance current s).0 ss in
    if alerts_on (advance current s) then suc rest else rest

-- The highest rank of some statuses; an unknown one counts 0.
pub best : List String → ℕ
best [] = 0
best (s ∷ ss) = max (rank s) (best ss)

rank-advance_to :
    (current s : String) (o : Option ℕ)
    → status_rank s ≡ o
    → rank (advance_to current s o).0 ≡ max (rank current) (or_zero o)
unfolding advance_to
rank-advance_to current s none e = omega arith
rank-advance_to current s (some r) e = elim (Bool-cases (ltb (rank current) r)) [
  | inl less ↦ rw (less, e) (omega (tests))
  | inr more ↦ rw more (ground arith)
]

rank-advance : (current s : String) → rank (advance current s).0 ≡ max (rank current) (rank s)
unfolding advance
rank-advance current s = rank-advance_to current s (status_rank s) refl

max_assoc : (a b c : ℕ) → max (max a b) c ≡ max a (max b c)
max_assoc a b c = omega arith

-- The final rank is the highest that was ever seen.
pub rank-advance_all :
    (current : String) (ss : List String)
    → rank (advance_all current ss) ≡ max (rank current) (best ss)
unfolding advance_all best
rank-advance_all current [] = omega arith
rank-advance_all current (s ∷ ss) =
    omega (arith, rank-advance_all (advance current s).0 ss, rank-advance current s)

best-perm_d : {xs ys : List String} → Permᴰ xs ys → best xs ≡ best ys
unfolding best
best-perm_d Permᴰ.nil = refl
best-perm_d (Permᴰ.cons e p) = omega (arith, ap rank e, best-perm_d p)
best-perm_d (Permᴰ.swap e f) = omega (arith, ap rank e, ap rank f)
best-perm_d (Permᴰ.trans p q) = best-perm_d p ∙ best-perm_d q

-- Webhooks may arrive in any order: the rank that the delivery ends at is the same.
pub advance_all-perm :
    (current : String) (xs ys : List String)
    → Perm xs ys
    → rank (advance_all current xs) ≡ rank (advance_all current ys)
advance_all-perm current xs ys p =
    ∥∥₁_elim p (ℕ_set _ _)
      λ d. omega (arith, rank-advance_all current xs, rank-advance_all current ys, best-perm_d d)

rank-le : (s : String) → rank s ≤ 50
unfolding status_rank
rank-le s = ground arith

problem-cases :
    (s : String)
    → is_problem s ≡ true
    → (s ≡ status_delayed)
      ⊎ ((s ≡ status_complained)
          ⊎ ((s ≡ status_bounced) ⊎ ((s ≡ status_failed) ⊎ (s ≡ status_suppressed))))
unfolding is_problem
problem-cases s h = ground (
  arith,
  eq_iff s status_delayed,
  eq_iff s status_complained,
  eq_iff s status_bounced,
  eq_iff s status_failed,
  eq_iff s status_suppressed,
)

abbrev ProblemRank : ℕ → Type 0
ProblemRank n = (n ≡ 20) ⊎ ((n ≡ 40) ⊎ (n ≡ 50))

problem-rank : (s : String) → is_problem s ≡ true → ProblemRank (rank s)
problem-rank s h = elim (problem-cases s h) [
  | inl e ↦ subst (λ t. ProblemRank (rank t)) (sym e) (unfold status_rank in inl refl)
  | inr (inl e) ↦ subst (λ t. ProblemRank (rank t)) (sym e) (unfold status_rank in inr (inl refl))
  | inr (inr (inl e)) ↦
      subst (λ t. ProblemRank (rank t)) (sym e) (unfold status_rank in inr (inr refl))
  | inr (inr (inr (inl e))) ↦
      subst (λ t. ProblemRank (rank t)) (sym e) (unfold status_rank in inr (inr refl))
  | inr (inr (inr (inr e))) ↦
      subst (λ t. ProblemRank (rank t)) (sym e) (unfold status_rank in inr (inr refl))
]

advance_to-cases :
    (current s : String) (o : Option ℕ)
    → ((advance_to current s o ≡ (s, true)) × (rank current < or_zero o))
      ⊎ ((advance_to current s o ≡ (current, false)) × (or_zero o ≤ rank current))
unfolding advance_to
advance_to-cases current s none = inr (refl, omega arith)
advance_to-cases current s (some r) = elim (Bool-cases (ltb (rank current) r)) [
  | inl less ↦ inl (rw less, ltb→lt _ _ less)
  | inr more ↦ inr (rw more, ground arith)
]

-- `Advance` changes the status exactly when the incoming one has a strictly higher rank, and then
-- to the incoming one.
pub advance_iff :
    (current s : String)
    → ((advance current s ≡ (s, true)) × (rank current < rank s))
      ⊎ ((advance current s ≡ (current, false)) × (rank s ≤ rank current))
unfolding advance
advance_iff current s = advance_to-cases current s (status_rank s)

-- How many alerts are left once a rank is reached.
abbrev alerts_left : ℕ → ℕ
alerts_left r = if ltb r 20 then 3 else if ltb r 40 then 2 else if ltb r 50 then 1 else 0

alerts_left-advance :
    (current s : String)
    → (if alerts_on (advance current s) then 1 else 0) + alerts_left (rank (advance current s).0)
      ≤ alerts_left (rank current)
alerts_left-advance current s = elim (advance_iff current s) [
  | inr (e, _) ↦ rw e (omega arith)
  | inl (e, less) ↦ rw e (elim (Bool-cases (is_problem s)) [
    | inl p ↦ rw p (ground (arith, problem-rank s p))
    | inr p ↦ rw p (ground arith)
  ])
]

alerts-le_left :
    (current : String) (ss : List String) → alerts current ss ≤ alerts_left (rank current)
unfolding alerts
alerts-le_left current [] = omega arith
alerts-le_left current (s ∷ ss) =
    ground (arith, alerts_left-advance current s, alerts-le_left (advance current s).0 ss)

-- However many events the provider reports about an email, at most three of them raise an alert
-- for its sender.
pub alerts-le_three : (current : String) (ss : List String) → alerts current ss ≤ 3
alerts-le_three current ss = ground (arith, alerts-le_left current ss)

-- A bounced, failed or suppressed email stays so: no later event changes its status.
pub advance_all_terminal :
    (current : String) (ss : List String) → 50 ≤ rank current → advance_all current ss ≡ current
unfolding advance_all
advance_all_terminal current [] h = refl
advance_all_terminal current (s ∷ ss) h = elim (advance_iff current s) [
  | inl (_, less) ↦ absurd (omega (arith, rank-le s))
  | inr (e, _) ↦ rw e (advance_all_terminal current ss h)
]
