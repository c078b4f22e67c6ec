-- ===== src/Base/Sums.antt =====
-- A number for each row, summed over a table, and what an UPDATE and a DELETE do to the sum.
use Prim.Native.Nat.{ℕ, ◌+◌, ◌*◌, ◌≤◌, ◌<◌}
use Prim.Native.String.{String}
use mathlib.Core.Path.{◌≡◌, refl, sym, ap}
use mathlib.Core.Logic.{◌≢◌, inl, inr}
use mathlib.Core.Bool.{Bool, true, not}
use mathlib.Core.List.{List, [], ◌∷◌, Memᴰ}
use native.Mathlib.Omega.{arith}
use text.Mathlib.Text.{◌==◌}
use text.Mathlib.TextEquality.{eq_iff}
use text.Mathlib.TextPositions.{eq_refl}
use stonesuite_notify.Base.Tests.{Bool-cases}
use stonesuite_notify.Base.Lists.{length, All, contains, any}
use stonesuite_notify.Base.Table.{select, update, All-select}
use stonesuite_notify.Base.Keys.{IsKeyed, All-mem}

module _ {ℓ} {A : Type ℓ} (m : A → ℕ) where
  abbrev pub total : List A → ℕ
  total [] = 0
  total (x ∷ xs) = m x + total xs

  pub total-le : (n : ℕ) (xs : List A) → All (λ x. m x ≤ n) xs → total xs ≤ n * length xs
  total-le n [] h = omega arith
  total-le n (x ∷ xs) h = grind (arith, total-le n xs h.1, h.0)

  pub total-update-eq :
      (p : A → Bool) (f : A → A) (xs : List A)
      → All (λ x. p x ≡ true → m (f x) ≡ m x) xs
      → total (update p f xs) ≡ total xs
  total-update-eq p f [] h = refl
  total-update-eq p f (x ∷ xs) h = elim (Bool-cases (p x)) [
    | inl e ↦ rw e (omega (arith, h.0 e, total-update-eq p f xs h.1))
    | inr e ↦ rw e (omega (arith, total-update-eq p f xs h.1))
  ]

  total-update-le :
      (p : A → Bool) (f : A → A) (xs : List A)
      → All (λ x. p x ≡ true → m (f x) < m x) xs
      → total (update p f xs) ≤ total xs
  total-update-le p f [] h = omega arith
  total-update-le p f (x ∷ xs) h = elim (Bool-cases (p x)) [
    | inl e ↦ rw e (omega (arith, h.0 e, total-update-le p f xs h.1))
    | inr e ↦ rw e (omega (arith, total-update-le p f xs h.1))
  ]

  -- An UPDATE that makes its rows smaller, and meets one.
  pub total-update-lt :
      (p : A → Bool) (f : A → A) (xs : List A)
      → All (λ x. p x ≡ true → m (f x) < m x) xs
      → any p xs ≡ true
      → total (update p f xs) < total xs
  total-update-lt p f [] h k = cc
  total-update-lt p f (x ∷ xs) h k = elim (Bool-cases (p x)) [
    | inl e ↦ rw e (omega (arith, h.0 e, total-update-le p f xs h.1))
    | inr e ↦ rw e (omega (arith, total-update-lt p f xs h.1 (rw e at k)))
  ]

  total-select-le : (p : A → Bool) (xs : List A) → total (select p xs) ≤ total xs
  total-select-le p [] = omega arith
  total-select-le p (x ∷ xs) = elim (Bool-cases (p x)) [
    | inl e ↦ rw e (omega (arith, total-select-le p xs))
    | inr e ↦ rw e (omega (arith, total-select-le p xs))
  ]

  -- A DELETE that meets a row that counts.
  pub total-select-lt :
      (p : A → Bool) (xs : List A)
      → All (λ x. p x ≡ true → 0 < m x) xs
      → any p xs ≡ true
      → total (select (λ x. not (p x)) xs) < total xs
  total-select-lt p [] h k = cc
  total-select-lt p (x ∷ xs) h k = elim (Bool-cases (p x)) [
    | inl e ↦ rw e (omega (arith, h.0 e, total-select-le (λ y. not (p y)) xs))
    | inr e ↦ rw e (omega (arith, total-select-lt p xs h.1 (rw e at k)))
  ]

module _ {ℓ} {A : Type ℓ} (key : A → String) where
  returning_none :
      (f : A → A) (k : String) (xs : List A)
      → All (λ y. key y ≢ k) xs
      → select (λ y. contains (key y) (k ∷ [])) (update (λ y. contains (key y) (k ∷ [])) f xs) ≡ []
  returning_none f k [] h = refl
  returning_none f k (y ∷ ys) h = elim (Bool-cases (k == key y)) [
    | inl e ↦ absurd (h.0 (sym ((eq_iff k (key y)).0 e)))
    | inr e ↦ rw (e, e) (returning_none f k ys h.1)
  ]

  -- An UPDATE … RETURNING of one key returns the one row that has it.
  pub returning_one :
      (f : A → A) (x : A) (xs : List A)
      → ((y : A) → key (f y) ≡ key y)
      → Memᴰ x xs
      → IsKeyed key xs
      → select
          (λ y. contains (key y) (key x ∷ []))
          (update (λ y. contains (key y) (key x ∷ [])) f xs)
        ≡ f x ∷ []
  returning_one f x [] same mem k = elim mem [ ]
  returning_one f x (y ∷ ys) same (Memᴰ.head e) k = rw (← e) (
      rw (eq_refl (key x))
        (rw (same x, eq_refl (key x)) (ap (λ l. f x ∷ l) (returning_none f (key x) ys (rw e k.0)))))
  returning_one f x (y ∷ ys) same (Memᴰ.tail mem) k = elim (Bool-cases (key x == key y)) [
    | inl e ↦ absurd (All-mem (λ z. key z ≢ key y) x ys k.0 mem ((eq_iff (key x) (key y)).0 e))
    | inr e ↦ rw e (rw e (returning_one f x ys same mem k.1))
  ]

  pub IsKeyed-delete : (p : A → Bool) (xs : List A) → IsKeyed key xs → IsKeyed key (select p xs)
  IsKeyed-delete p [] k = tt
  IsKeyed-delete p (x ∷ xs) k = elim (Bool-cases (p x)) [
    | inl e ↦ rw e (All-select (λ y. key y ≢ key x) p xs k.0, IsKeyed-delete p xs k.1)
    | inr e ↦ rw e (IsKeyed-delete p xs k.1)
  ]
