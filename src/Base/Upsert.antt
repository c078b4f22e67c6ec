-- ===== src/Base/Upsert.antt =====
-- INSERT … ON CONFLICT … DO UPDATE, and what a SELECT by a key finds afterwards.
use mathlib.Core.Path.{◌≡◌, refl, ◌∙◌}
use mathlib.Core.Logic.{inl, inr}
use mathlib.Core.Bool.{Bool, true, false}
use mathlib.Core.Option.{Option, none, some}
use mathlib.Core.List.{List, [], ◌∷◌, ◌++◌}
use stonesuite_notify.Base.Tests.{if◌then◌else◌, Bool-cases}
use stonesuite_notify.Base.Lists.{any}
use stonesuite_notify.Base.Table.{update, find}

-- `conflicts` is the unique key's test for the row to insert.
abbrev pub upsert {ℓ} : {A : Type ℓ} → (A → Bool) → (A → A) → A → List A → List A
upsert conflicts set row table =
    if any conflicts table then update conflicts set table else table ++ row ∷ []

module _ {ℓ} {A : Type ℓ} where
  abbrev pub set_or_new : (A → A) → A → Option A → A
  set_or_new set row none = row
  set_or_new set row (some x) = set x

  module _ (p : A → Bool) (set : A → A) (row : A) where
    module _ (keeps : (x : A) → p (set x) ≡ p x) where
      find-update_same :
          (xs : List A)
          → any p xs ≡ true
          → find p (update p set xs) ≡ some (set_or_new set row (find p xs))
      find-update_same [] h = cc
      find-update_same (x ∷ xs) h = elim (Bool-cases (p x)) [
        | inl e ↦ rw (e, keeps x ∙ e)
        | inr e ↦ rw e (rw (find-update_same xs (rw e at h), e))
      ]

      find-append_row :
          (xs : List A)
          → any p xs ≡ false
          → p row ≡ true
          → find p (xs ++ row ∷ []) ≡ some (set_or_new set row (find p xs))
      find-append_row [] h hit = rw hit
      find-append_row (x ∷ xs) h hit = elim (Bool-cases (p x)) [
        | inl e ↦ cc (rw e at h)
        | inr e ↦ rw (e, find-append_row xs (rw e at h) hit)
      ]

      -- The key's row afterwards: what was there, set, or the new row.
      pub find-upsert :
          (xs : List A)
          → p row ≡ true
          → find p (upsert p set row xs) ≡ some (set_or_new set row (find p xs))
      find-upsert xs hit = elim (Bool-cases (any p xs)) [
        | inl e ↦ rw e (find-update_same xs e)
        | inr e ↦ rw e (find-append_row xs e hit)
      ]

    module _ (q : A → Bool) (keeps : (x : A) → q (set x) ≡ q x)
        (apart : (x : A) → p x ≡ true → q x ≡ false) (no_row : q row ≡ false) where
      find-update_other : (xs : List A) → find q (update p set xs) ≡ find q xs
      find-update_other [] = refl
      find-update_other (x ∷ xs) = elim (Bool-cases (p x)) [
        | inl e ↦ rw (e, keeps, apart x e, find-update_other xs)
        | inr e ↦ elim (Bool-cases (q x)) [
          | inl k ↦ rw (e, k)
          | inr k ↦ rw (e, k, find-update_other xs)
        ]
      ]

      find-append_other : (xs : List A) → find q (xs ++ row ∷ []) ≡ find q xs
      find-append_other [] = rw no_row
      find-append_other (x ∷ xs) = elim (Bool-cases (q x)) [
        | inl k ↦ rw k
        | inr k ↦ rw (k, find-append_other xs)
      ]

      -- The row of another key is untouched.
      pub find-upsert_other : (xs : List A) → find q (upsert p set row xs) ≡ find q xs
      find-upsert_other xs = elim (Bool-cases (any p xs)) [
        | inl e ↦ rw e (find-update_other xs)
        | inr e ↦ rw e (find-append_other xs)
      ]
