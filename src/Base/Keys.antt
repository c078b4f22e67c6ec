-- ===== src/Base/Keys.antt =====
-- Tables whose rows have a unique key, and what an UPDATE does to each row.
use Prim.Native.Nat.{◌+◌, ◌≤◌}
use Prim.Native.String.{String}
use mathlib.Core.Path.{◌≡◌, refl, sym, ap, ◌∙◌}
use mathlib.Core.Logic.{◌≢◌, inl, inr}
use mathlib.Core.Bool.{Bool, true, false, ◌||◌}
use mathlib.Core.List.{List, [], ◌∷◌, ◌++◌, map, Memᴰ}
use native.Mathlib.Omega.{arith}
use text.Mathlib.Text.{◌==◌}
use text.Mathlib.TextEquality.{eq_iff}
use text.Mathlib.TextPositions.{eq_refl}
use stonesuite_notify.Base.Tests.{Bool-cases}
use stonesuite_notify.Base.Lists.{length, All, All-impl, All-of, All-append, contains, any}
use stonesuite_notify.Base.Table.{select, update, All-update}

module _ {ℓ κ} {A : Type ℓ} (P : A → Type κ) where
  pub All-mem : (x : A) (xs : List A) → All P xs → Memᴰ x xs → P x
  All-mem x [] h m = elim m [ ]
  All-mem x (y ∷ ys) h (Memᴰ.head e) = rw e h.0
  All-mem x (y ∷ ys) h (Memᴰ.tail m) = All-mem x ys h.1 m

  pub All-of_mem : (xs : List A) → ((x : A) → Memᴰ x xs → P x) → All P xs
  All-of_mem [] f = tt
  All-of_mem (x ∷ xs) f = (f x (Memᴰ.head refl), All-of_mem xs (λ y m. f y (Memᴰ.tail m)))

-- The rows of `ys` are those of `xs`, some of them changed by `f`, and only where `P` held.
pub data Changed {ℓ κ} {A : Type ℓ} (P : A → Type κ) (f : A → A)
    : List A → List A → Type (ℓ ⊔ κ) where
  none_left : Changed P f [] []
  kept : {x : A} {xs ys : List A} → Changed P f xs ys → Changed P f (x ∷ xs) (x ∷ ys)
  changed : {x : A} {xs ys : List A} → P x → Changed P f xs ys → Changed P f (x ∷ xs) (f x ∷ ys)

pub update-Changed {ℓ κ} :
    {A : Type ℓ} (P : A → Type κ) (p : A → Bool) (f : A → A) (xs : List A)
    → All (λ x. p x ≡ true → P x) xs
    → Changed P f xs (update p f xs)
update-Changed P p f [] h = none_left
update-Changed P p f (x ∷ xs) h = elim (Bool-cases (p x)) [
  | inl e ↦ rw e (changed (h.0 e) (update-Changed P p f xs h.1))
  | inr e ↦ rw e (kept (update-Changed P p f xs h.1))
]

pub Changed-impl {ℓ κ μ} :
    {A : Type ℓ} (P : A → Type κ) (Q : A → Type μ) {f : A → A}
    → ((x : A) → P x → Q x)
    → {xs ys : List A} → Changed P f xs ys
    → Changed Q f xs ys
Changed-impl P Q g none_left = none_left
Changed-impl P Q g (kept c) = kept (Changed-impl P Q g c)
Changed-impl P Q g (changed {x} p c) = changed (g x p) (Changed-impl P Q g c)

pub Changed-All {ℓ κ μ} :
    {A : Type ℓ} {P : A → Type κ} {f : A → A} (B : A → Type μ)
    → ((x : A) → P x → B x → B (f x))
    → {xs ys : List A} → Changed P f xs ys
    → All B xs
    → All B ys
Changed-All B g none_left h = tt
Changed-All B g (kept c) h = (h.0, Changed-All B g c h.1)
Changed-All B g (changed {x} p c) h = (g x p h.0, Changed-All B g c h.1)

module _ {ℓ} {A : Type ℓ} where
  pub select-none : (p : A → Bool) (xs : List A) → All (λ x. p x ≡ false) xs → select p xs ≡ []
  select-none p [] h = refl
  select-none p (x ∷ xs) h = rw h.0 (select-none p xs h.1)

  length-select-or :
      (p q : A → Bool) (xs : List A)
      → length (select (λ x. p x || q x) xs) ≤ length (select p xs) + length (select q xs)
  length-select-or p q [] = omega arith
  length-select-or p q (x ∷ xs) = ground (arith, length-select-or p q xs)

module _ {ℓ} {A : Type ℓ} (key : A → String) where
  -- No two rows have the same key.
  abbrev pub IsKeyed : List A → Type 0
  IsKeyed [] = Unit
  IsKeyed (x ∷ xs) = All (λ y. key y ≢ key x) xs × IsKeyed xs

  pub IsKeyed-unique :
      (x : A) (xs : List A) → Memᴰ x xs → IsKeyed xs → All (λ y. key y ≡ key x → y ≡ x) xs
  IsKeyed-unique x [] m k = elim m [ ]
  IsKeyed-unique x (y ∷ ys) (Memᴰ.head e) (h, k) =
      (λ _. sym e, All-impl _ _ (λ z ne same. absurd (ne (same ∙ ap key e))) ys h)
  IsKeyed-unique x (y ∷ ys) (Memᴰ.tail m) (h, k) =
      (λ same. absurd (All-mem (λ z. key z ≢ key y) x ys h m (sym same)), IsKeyed-unique x ys m k)

  pub contains-map :
      (k : String) (xs : List A)
      → contains k (map key xs) ≡ true
      → (x : A) × Memᴰ x xs × (key x ≡ k)
  contains-map k [] h = cc
  contains-map k (x ∷ xs) h = elim (Bool-cases (key x == k)) [
    | inl e ↦ (x, Memᴰ.head refl, (eq_iff (key x) k).0 e)
    | inr e ↦ let (y, m, same) = contains-map k xs (rw e at h) in (y, Memᴰ.tail m, same)
  ]

  pub contains-map_last : (xs : List A) (x : A) → contains (key x) (map key (xs ++ x ∷ [])) ≡ true
  contains-map_last [] x = rw (eq_refl (key x))
  contains-map_last (y ∷ ys) x = ground (arith, contains-map_last ys x)

  -- What is not among some keys is not among the keys of rows whose keys all are.
  pub contains-map-false :
      (k : String) (ids : List String) (xs : List A)
      → All (λ x. contains (key x) ids ≡ true) xs
      → contains k ids ≡ false
      → contains k (map key xs) ≡ false
  contains-map-false k ids [] h no_k = refl
  contains-map-false k ids (x ∷ xs) h no_k =
      ground (arith, eq_iff (key x) k, contains-map-false k ids xs h.1 no_k, h.0)

  IsKeyed-select_one :
      (k : String) (xs : List A) → IsKeyed xs → length (select (λ x. k == key x) xs) ≤ 1
  IsKeyed-select_one k [] h = omega arith
  IsKeyed-select_one k (x ∷ xs) h = elim (Bool-cases (k == key x)) [
    | inl e ↦
        let others : select (λ y. k == key y) xs ≡ [] =
          select-none _ xs
            (All-impl _ _ (λ y ne. ground (arith, eq_iff k (key y), eq_iff k (key x))) xs h.0) in
        rw (e, others) (omega arith)
    | inr e ↦ rw e (IsKeyed-select_one k xs h.1)
  ]

  pub IsKeyed-select :
      (ids : List String) (xs : List A)
      → IsKeyed xs
      → length (select (λ x. contains (key x) ids) xs) ≤ length ids
  IsKeyed-select [] xs h = rw (select-none _ xs (All-of _ (λ _. refl) xs)) (omega arith)
  IsKeyed-select (i ∷ ids) xs h = omega (
    arith,
    length-select-or (λ x. i == key x) (λ x. contains (key x) ids) xs,
    IsKeyed-select_one i xs h,
    IsKeyed-select ids xs h,
  )

  pub IsKeyed-update :
      (p : A → Bool) (f : A → A)
      → ((x : A) → key (f x) ≡ key x)
      → (xs : List A) → IsKeyed xs
      → IsKeyed (update p f xs)
  IsKeyed-update p f same [] h = tt
  IsKeyed-update p f same (x ∷ xs) h = elim (Bool-cases (p x)) [
    | inl e ↦ rw (e, same) (others, IsKeyed-update p f same xs h.1)
    | inr e ↦ rw e (others, IsKeyed-update p f same xs h.1)
  ]
    where
      others : All (λ y. key y ≢ key x) (update p f xs)
      others = All-update _ p f (λ y _ ne. rw same ne) xs h.0

  pub IsKeyed-append_one :
      (xs : List A) (x : A) → IsKeyed xs → All (λ y. key y ≢ key x) xs → IsKeyed (xs ++ x ∷ [])
  IsKeyed-append_one [] x k h = (tt, tt)
  IsKeyed-append_one (y ∷ ys) x k h = (
    All-append (λ z. key z ≢ key y) ys (x ∷ []) k.0 ((λ e. h.0 (sym e)), tt),
    IsKeyed-append_one ys x k.1 h.1,
  )

module _ {ℓ} {A : Type ℓ} (p : A → Bool) where
  pub any-mem : (xs : List A) → any p xs ≡ true → (x : A) × Memᴰ x xs × (p x ≡ true)
  any-mem [] h = cc
  any-mem (x ∷ xs) h = elim (Bool-cases (p x)) [
    | inl e ↦ (x, Memᴰ.head refl, e)
    | inr e ↦ let (y, m, k) = any-mem xs (rw e at h) in (y, Memᴰ.tail m, k)
  ]

  pub any_of_mem : (x : A) (xs : List A) → Memᴰ x xs → p x ≡ true → any p xs ≡ true
  any_of_mem x [] m h = elim m [ ]
  any_of_mem x (y ∷ ys) (Memᴰ.head e) h = rw (sym e, h)
  any_of_mem x (y ∷ ys) (Memᴰ.tail m) h = ground (arith, any_of_mem x ys m h)
