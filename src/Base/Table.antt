-- ===== src/Base/Table.antt =====
-- Statements on a table of the database: a list of rows, in the order of insertion.
use Prim.Native.Nat.{ℕ, suc}
use Prim.Native.String.{String}
use text.Mathlib.Text.{◌==◌}
use mathlib.Core.Path.{◌≡◌, refl, sym, ap, ◌∙◌}
use mathlib.Core.Logic.{inl, inr}
use mathlib.Core.Bool.{Bool, true, false}
use mathlib.Core.Option.{Option, none, some}
use mathlib.Core.List.{List, [], ◌∷◌, ◌++◌, map}
use native.Mathlib.Omega.{arith}
use stonesuite_notify.Base.Tests.{leb, if◌then◌else◌, Bool-cases}
use stonesuite_notify.Base.Lists.{length, take, All, All-of, any}

module _ {ℓ} {A : Type ℓ} where
  -- SELECT … WHERE
  abbrev pub select : (A → Bool) → List A → List A
  select p [] = []
  select p (x ∷ xs) = if p x then x ∷ select p xs else select p xs

  -- UPDATE … SET … WHERE
  abbrev pub update : (A → Bool) → (A → A) → List A → List A
  update p f [] = []
  update p f (x ∷ xs) = (if p x then f x else x) ∷ update p f xs

  -- The first row that a predicate holds of: a SELECT by a unique key.
  abbrev pub find : (A → Bool) → List A → Option A
  find p [] = none
  find p (x ∷ xs) = if p x then some x else find p xs

  -- ORDER BY a key, ascending; rows with equal keys stay in the order of insertion.
  abbrev pub insert_by : (A → ℕ) → A → List A → List A
  insert_by key x [] = x ∷ []
  insert_by key x (y ∷ ys) = if leb (key x) (key y) then x ∷ y ∷ ys else y ∷ insert_by key x ys

  abbrev pub order_by : (A → ℕ) → List A → List A
  order_by key [] = []
  order_by key (x ∷ xs) = insert_by key x (order_by key xs)

  pub length-update : (p : A → Bool) (f : A → A) (xs : List A) → length (update p f xs) ≡ length xs
  length-update p f [] = refl
  length-update p f (x ∷ xs) = ap suc (length-update p f xs)

module _ {ℓ κ} {A : Type ℓ} (P : A → Type κ) where
  pub All-select : (p : A → Bool) (xs : List A) → All P xs → All P (select p xs)
  All-select p [] h = tt
  All-select p (x ∷ xs) h = elim (Bool-cases (p x)) [
    | inl e ↦ rw e (h.0, All-select p xs h.1)
    | inr e ↦ rw e (All-select p xs h.1)
  ]

  pub All-update :
      (p : A → Bool) (f : A → A)
      → ((x : A) → p x ≡ true → P x → P (f x))
      → (xs : List A) → All P xs
      → All P (update p f xs)
  All-update p f keep [] h = tt
  All-update p f keep (x ∷ xs) h = elim (Bool-cases (p x)) [
    | inl e ↦ rw e (keep x e h.0, All-update p f keep xs h.1)
    | inr e ↦ rw e (h.0, All-update p f keep xs h.1)
  ]

  pub All-insert_by :
      (key : A → ℕ) (x : A) (xs : List A) → P x → All P xs → All P (insert_by key x xs)
  All-insert_by key x [] p h = (p, tt)
  All-insert_by key x (y ∷ ys) p h = elim (Bool-cases (leb (key x) (key y))) [
    | inl e ↦ rw e (p, h)
    | inr e ↦ rw e (h.0, All-insert_by key x ys p h.1)
  ]

  pub All-order_by : (key : A → ℕ) (xs : List A) → All P xs → All P (order_by key xs)
  All-order_by key [] h = tt
  All-order_by key (x ∷ xs) h = All-insert_by key x (order_by key xs) h.0 (All-order_by key xs h.1)

pub All-select_with {ℓ κ μ} :
    {A : Type ℓ} (P : A → Type κ) (Q : A → Type μ) (p : A → Bool)
    → ((x : A) → p x ≡ true → P x → Q x)
    → (xs : List A) → All P xs
    → All Q (select p xs)
All-select_with P Q p f [] h = tt
All-select_with P Q p f (x ∷ xs) h = elim (Bool-cases (p x)) [
  | inl e ↦ rw e (f x e h.0, All-select_with P Q p f xs h.1)
  | inr e ↦ rw e (All-select_with P Q p f xs h.1)
]

-- After an UPDATE, a row that the condition holds of is one that was set, if the update keeps
-- the condition.
pub update-All_hit {ℓ κ} :
    {A : Type ℓ} (Q : A → Type κ) (p : A → Bool) (f : A → A)
    → ((x : A) → p x ≡ true → Q (f x))
    → (xs : List A) → All (λ y. p y ≡ true → Q y) (update p f xs)
update-All_hit Q p f set [] = tt
update-All_hit Q p f set (x ∷ xs) = elim (Bool-cases (p x)) [
  | inl e ↦ rw e ((λ _. set x e), update-All_hit Q p f set xs)
  | inr e ↦ rw e ((λ h. cc), update-All_hit Q p f set xs)
]

-- What holds of every row that an UPDATE … RETURNING returns.
pub All-returning {ℓ κ} :
    {A : Type ℓ} (P : A → Type κ) (p : A → Bool) (f : A → A)
    → ((x : A) → p x ≡ true → P (f x))
    → (xs : List A) → All P (select p (update p f xs))
All-returning P p f set xs =
    All-select_with (λ y. p y ≡ true → P y) P p (λ y e h. h e) (update p f xs)
      (update-All_hit P p f set xs)

pub All-select_self {ℓ κ} :
    {A : Type ℓ} (P : A → Type κ) (p : A → Bool)
    → ((x : A) → p x ≡ true → P x)
    → (xs : List A) → All P (select p xs)
All-select_self P p f xs =
    All-select_with (λ _. Unit {0}) P p (λ x e _. f x e) xs (All-of (λ _. Unit {0}) (λ _. tt) xs)

-- ORDER BY with a test of which row comes first; rows that tie stay as they were inserted.
module _ {ℓ} {A : Type ℓ} (before : A → A → Bool) where
  abbrev pub insert_before : A → List A → List A
  insert_before x [] = x ∷ []
  insert_before x (y ∷ ys) = if before y x then y ∷ insert_before x ys else x ∷ y ∷ ys

  abbrev pub sort_by : List A → List A
  sort_by [] = []
  sort_by (x ∷ xs) = insert_before x (sort_by xs)

  length-insert_before : (x : A) (ys : List A) → length (insert_before x ys) ≡ suc (length ys)
  length-insert_before x [] = refl
  length-insert_before x (y ∷ ys) = ground (arith, length-insert_before x ys)

  pub length-sort_by : (xs : List A) → length (sort_by xs) ≡ length xs
  length-sort_by [] = refl
  length-sort_by (x ∷ xs) = omega (arith, length-insert_before x (sort_by xs), length-sort_by xs)

  All-insert_before {κ} :
      (P : A → Type κ) (x : A) (ys : List A) → P x → All P ys → All P (insert_before x ys)
  All-insert_before P x [] p h = (p, tt)
  All-insert_before P x (y ∷ ys) p h = elim (Bool-cases (before y x)) [
    | inl e ↦ rw e (h.0, All-insert_before P x ys p h.1)
    | inr e ↦ rw e (p, h)
  ]

  pub All-sort_by {κ} : (P : A → Type κ) (xs : List A) → All P xs → All P (sort_by xs)
  All-sort_by P [] h = tt
  All-sort_by P (x ∷ xs) h = All-insert_before P x (sort_by xs) h.0 (All-sort_by P xs h.1)

module _ {ℓ} {A : Type ℓ} where
  pub any-false : (p : A → Bool) (xs : List A) → All (λ x. p x ≡ false) xs → any p xs ≡ false
  any-false p [] h = refl
  any-false p (x ∷ xs) h = rw h.0 (any-false p xs h.1)

  pub All-false_of_any : (p : A → Bool) (xs : List A) → any p xs ≡ false → All (λ x. p x ≡ false) xs
  All-false_of_any p [] h = tt
  All-false_of_any p (x ∷ xs) h = elim (Bool-cases (p x)) [
    | inl e ↦ cc (rw e at h)
    | inr e ↦ (e, All-false_of_any p xs (rw e at h))
  ]

  -- An UPDATE of all rows that a condition covers leaves none that the condition holds of.
  pub All-update_none :
      (p q : A → Bool) (f : A → A)
      → ((x : A) → q x ≡ false → p x ≡ false)
      → ((x : A) → p (f x) ≡ false)
      → (xs : List A) → All (λ x. p x ≡ false) (update q f xs)
  All-update_none p q f covers clears [] = tt
  All-update_none p q f covers clears (x ∷ xs) = elim (Bool-cases (q x)) [
    | inl e ↦ rw e (clears x, All-update_none p q f covers clears xs)
    | inr e ↦ rw e (covers x e, All-update_none p q f covers clears xs)
  ]

-- Nullable text columns: NULL is read as the empty text, and an equation is not true of NULL.
abbrev pub or_empty : Option String → String
or_empty none = ""
or_empty (some s) = s

-- NULLIF(s, '')
abbrev pub null_if_empty : String → Option String
null_if_empty s = if s == "" then none else some s

abbrev pub column_is : Option String → String → Bool
column_is none s = false
column_is (some t) s = t == s

module _ {ℓ κ} {A : Type ℓ} {B : Type κ} where
  -- An UPDATE that leaves some columns alone leaves them alone in every row.
  pub map-update :
      (g : A → B) (p : A → Bool) (f : A → A)
      → ((x : A) → g (f x) ≡ g x)
      → (xs : List A) → map g (update p f xs) ≡ map g xs
  map-update g p f same [] = refl
  map-update g p f same (x ∷ xs) = elim (Bool-cases (p x)) [
    | inl e ↦ rw (e, same, map-update g p f same xs)
    | inr e ↦ rw (e, map-update g p f same xs)
  ]

  pub take-map-append :
      (g : A → B) (xs ys : List A) → take (length xs) (map g (xs ++ ys)) ≡ map g xs
  take-map-append g [] ys = refl
  take-map-append g (x ∷ xs) ys = ap (λ zs. g x ∷ zs) (take-map-append g xs ys)

  pub take-map : (g : A → B) (xs : List A) → take (length xs) (map g xs) ≡ map g xs
  take-map g [] = refl
  take-map g (x ∷ xs) = ap (λ zs. g x ∷ zs) (take-map g xs)

module _ {ℓ} {A : Type ℓ} (p : A → Bool) where
  pub any_of_find : (xs : List A) {x : A} → find p xs ≡ some x → any p xs ≡ true
  any_of_find [] h = cc
  any_of_find (y ∷ ys) h = elim (Bool-cases (p y)) [
    | inl e ↦ rw e
    | inr e ↦ rw e (any_of_find ys (rw e at h))
  ]

  pub find_of_any : (xs : List A) → any p xs ≡ true → (x : A) × (find p xs ≡ some x)
  find_of_any [] h = cc
  find_of_any (y ∷ ys) h = elim (Bool-cases (p y)) [
    | inl e ↦ (y, rw e)
    | inr e ↦ let (x, found) = find_of_any ys (rw e at h) in (x, rw e found)
  ]

  pub any-append_left : (xs ys : List A) → any p xs ≡ true → any p (xs ++ ys) ≡ true
  any-append_left [] ys h = cc
  any-append_left (x ∷ xs) ys h = elim (Bool-cases (p x)) [
    | inl e ↦ rw e
    | inr e ↦ rw e (any-append_left xs ys (rw e at h))
  ]

  pub any-update :
      (q : A → Bool) (f : A → A)
      → ((x : A) → p (f x) ≡ p x)
      → (xs : List A) → any p (update q f xs) ≡ any p xs
  any-update q f same [] = refl
  any-update q f same (x ∷ xs) = elim (Bool-cases (q x)) [
    | inl e ↦ rw (e, same, any-update q f same xs)
    | inr e ↦ rw (e, any-update q f same xs)
  ]

-- A table of which rows were set and to which rows were added keeps, in its old rows, the columns
-- that the update leaves alone, and the rows that a condition on such columns finds.
module _ {ℓ} {A : Type ℓ} (p : A → Bool) (f : A → A) (xs ys : List A) where
  pub take-map-update {κ} :
      {B : Type κ} (g : A → B)
      → ((x : A) → g (f x) ≡ g x)
      → take (length xs) (map g (update p f xs ++ ys)) ≡ map g xs
  take-map-update g same =
      ap (λ k. take k (map g (update p f xs ++ ys))) (sym (length-update p f xs))
      ∙ take-map-append g (update p f xs) ys
      ∙ map-update g p f same xs

  pub any-update_append :
      (q : A → Bool)
      → ((x : A) → q (f x) ≡ q x)
      → any q xs ≡ true
      → any q (update p f xs ++ ys) ≡ true
  any-update_append q same h = any-append_left q (update p f xs) ys (any-update q p f same xs ∙ h)

-- Deleting rows that a condition does not find leaves what it finds.
pub select-select {ℓ} :
    {A : Type ℓ} (p q : A → Bool)
    → ((x : A) → p x ≡ false → q x ≡ false)
    → (xs : List A) → select q (select p xs) ≡ select q xs
select-select p q covers [] = refl
select-select p q covers (x ∷ xs) = elim (Bool-cases (p x)) [
  | inr e ↦ rw (e, covers x e, select-select p q covers xs)
  | inl e ↦ elim (Bool-cases (q x)) [
    | inl k ↦ rw (e, k, select-select p q covers xs)
    | inr k ↦ rw (e, k, select-select p q covers xs)
  ]
]

pub any-last {ℓ} :
    {A : Type ℓ} (p : A → Bool) (xs : List A) (x : A) → p x ≡ true → any p (xs ++ x ∷ []) ≡ true
any-last p [] x h = rw h
any-last p (y ∷ ys) x h = elim (Bool-cases (p y)) [
  | inl e ↦ rw e
  | inr e ↦ rw e (any-last p ys x h)
]
