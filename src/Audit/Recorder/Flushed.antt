-- ===== src/Audit/Recorder/Flushed.antt =====
-- What the wait at shutdown guarantees.
use mathlib.Core.List.{Memᴰ}
use mathlib.Core.Path.{subst}
use stonesuite_notify.Base.{
  ℕ, ◌+◌, ◌≡◌, refl, sym, ap, ◌∙◌, inl, inr, ◌⊎◌, String, Bool, true, false, List, [], ◌∷◌, ◌++◌,
  length, All, All-append, All-impl, arith,
}
use stonesuite_notify.Audit.{Entry, EntryRow, entry_row, record_entry}
use stonesuite_notify.Audit.Recorder.{
  Recorder, Run, started, called, ended, record_async, write_ends, WaitReturns,
}

Memᴰ-append_left {ℓ} :
    {A : Type ℓ} {x : A} {xs : List A} (ys : List A) → Memᴰ x xs → Memᴰ x (xs ++ ys)
Memᴰ-append_left ys (Memᴰ.head e) = Memᴰ.head e
Memᴰ-append_left ys (Memᴰ.tail m) = Memᴰ.tail (Memᴰ-append_left ys m)

Memᴰ-last {ℓ} : {A : Type ℓ} (x : A) (xs : List A) → Memᴰ x (xs ++ x ∷ [])
Memᴰ-last x [] = Memᴰ.head refl
Memᴰ-last x (y ∷ xs) = Memᴰ.tail (Memᴰ-last x xs)

Memᴰ-split {ℓ} :
    {A : Type ℓ} {x : A} (xs : List A) (e : A) (ys : List A)
    → Memᴰ x (xs ++ e ∷ ys)
    → (x ≡ e) ⊎ Memᴰ x (xs ++ ys)
Memᴰ-split [] e ys (Memᴰ.head p) = inl p
Memᴰ-split [] e ys (Memᴰ.tail m) = inr m
Memᴰ-split (y ∷ xs) e ys (Memᴰ.head p) = inr (Memᴰ.head p)
Memᴰ-split (y ∷ xs) e ys (Memᴰ.tail m) = elim (Memᴰ-split xs e ys m) [
  | inl p ↦ inl p
  | inr k ↦ inr (Memᴰ.tail k)
]

-- An entry is in the table, with some id and time.
abbrev pub IsWritten : Recorder → Entry → Type 0
IsWritten r e = (id : String) × (now : ℕ) × Memᴰ (entry_row id now e) r.table

abbrev pub IsKept : Recorder → Entry → Type 0
IsKept r e = Memᴰ e r.in_flight ⊎ (Memᴰ e r.logged ⊎ IsWritten r e)

length-snoc {ℓ} : {A : Type ℓ} (xs : List A) (x : A) → length (xs ++ x ∷ []) ≡ length xs + 1
length-snoc [] x = refl
length-snoc (y ∷ xs) x = ground (arith, length-snoc xs x)

length-middle {ℓ} :
    {A : Type ℓ} (xs : List A) (e : A) (ys : List A) → length (xs ++ e ∷ ys) ≡ length (xs ++ ys) + 1
length-middle [] e ys = ground arith
length-middle (y ∷ xs) e ys = ground (arith, length-middle xs e ys)

record_async-IsKept : (r : Recorder) (e x : Entry) → IsKept r x → IsKept (record_async e r) x
unfolding record_async
record_async-IsKept r e x (inl m) = inl (Memᴰ-append_left (e ∷ []) m)
record_async-IsKept r e x (inr k) = inr k

write_ends-IsKept :
    (before : List Entry) (e : Entry) (behind : List Entry) (up : Bool) (id : String) (now : ℕ)
    (r : Recorder) (x : Entry)
    → r.in_flight ≡ before ++ e ∷ behind
    → IsKept r x
    → IsKept (write_ends before e behind up id now r) x
unfolding write_ends record_entry
write_ends-IsKept before e behind true id now r x h (inl m) =
    elim (Memᴰ-split before e behind (subst (Memᴰ x) h m)) [
      | inl p ↦ inr (
          inr (
            id,
            now,
            subst (λ y. Memᴰ (entry_row id now y) (r.table ++ entry_row id now e ∷ [])) (sym p)
                (Memᴰ-last (entry_row id now e) r.table),
          ))
      | inr k ↦ inl k
    ]
write_ends-IsKept before e behind false id now r x h (inl m) =
    elim (Memᴰ-split before e behind (subst (Memᴰ x) h m)) [
      | inl p ↦ inr (inl (subst (λ y. Memᴰ y (r.logged ++ e ∷ [])) (sym p) (Memᴰ-last e r.logged)))
      | inr k ↦ inl k
    ]
write_ends-IsKept before e behind true id now r x h (inr (inl m)) = inr (inl m)
write_ends-IsKept before e behind false id now r x h (inr (inl m)) =
    inr (inl (Memᴰ-append_left (e ∷ []) m))
write_ends-IsKept before e behind true id now r x h (inr (inr (i, t, m))) =
    inr (inr (i, t, Memᴰ-append_left (entry_row id now e ∷ []) m))
write_ends-IsKept before e behind false id now r x h (inr (inr (i, t, m))) = inr (inr (i, t, m))

-- Every write is in flight, or logged, or one row of the table.
abbrev pub IsCounted : ℕ → Recorder → Type 0
IsCounted n r = length r.table + length r.logged + length r.in_flight ≡ n + length r.handed

write_ends-IsCounted :
    (before : List Entry) (e : Entry) (behind : List Entry) (up : Bool) (id : String) (now : ℕ)
    (r : Recorder) (n : ℕ)
    → r.in_flight ≡ before ++ e ∷ behind
    → IsCounted n r
    → IsCounted n (write_ends before e behind up id now r)
unfolding write_ends record_entry
write_ends-IsCounted before e behind true id now r n h k =
    let a = length-snoc r.table (entry_row id now e) in
    let b = ap length h ∙ length-middle before e behind in ground (arith, a, b, k)
write_ends-IsCounted before e behind false id now r n h k =
    let a = length-snoc r.logged e in
    let b = ap length h ∙ length-middle before e behind in ground (arith, a, b, k)

record_async-IsCounted :
    (r : Recorder) (e : Entry) (n : ℕ) → IsCounted n r → IsCounted n (record_async e r)
unfolding record_async
record_async-IsCounted r e n k =
    let a = length-snoc r.in_flight e in let b = length-snoc r.handed e in ground (arith, a, b, k)

record_async-All :
    (r : Recorder) (e : Entry)
    → All (IsKept r) r.handed
    → All (IsKept (record_async e r)) (record_async e r).handed
record_async-All r e hs =
    unfold record_async in
    All-append _ r.handed (e ∷ [])
      (All-impl _ _ (λ x k. unfold record_async in record_async-IsKept r e x k) r.handed hs)
      (inl (Memᴰ-last e r.in_flight), tt)

write_ends-handed :
    (before : List Entry) (e : Entry) (behind : List Entry) (up : Bool) (id : String) (now : ℕ)
    (r : Recorder)
    → (write_ends before e behind up id now r).handed ≡ r.handed
unfolding write_ends record_entry
write_ends-handed before e behind true id now r = refl
write_ends-handed before e behind false id now r = refl

write_ends-All :
    (before : List Entry) (e : Entry) (behind : List Entry) (up : Bool) (id : String) (now : ℕ)
    (r : Recorder)
    → r.in_flight ≡ before ++ e ∷ behind
    → All (IsKept r) r.handed
    → All
        (IsKept (write_ends before e behind up id now r))
        (write_ends before e behind up id now r).handed
write_ends-All before e behind up id now r h hs =
    let end = write_ends before e behind up id now r in
    subst (All (IsKept end)) (sym (write_ends-handed before e behind up id now r)) (
      All-impl (IsKept r) (IsKept end) (λ x k. write_ends-IsKept before e behind up id now r x h k)
        r.handed hs)

-- An entry's write failed, or it is in the table.
abbrev pub IsFlushed : Recorder → Entry → Type 0
IsFlushed r e = Memᴰ e r.logged ⊎ IsWritten r e

module _ (table : List EntryRow) where
  Run-IsKept : (r : Recorder) → Run table r → All (IsKept r) r.handed
  Run-IsKept _ started = tt
  Run-IsKept _ (called {r} e run) = record_async-All r e (Run-IsKept r run)
  Run-IsKept _ (ended {r} before e behind up id now run h) =
      write_ends-All before e behind up id now r h (Run-IsKept r run)

  Run-IsCounted : (r : Recorder) → Run table r → IsCounted (length table) r
  Run-IsCounted _ started = ground arith
  Run-IsCounted _ (called {r} e run) = record_async-IsCounted r e _ (Run-IsCounted r run)
  Run-IsCounted _ (ended {r} before e behind up id now run h) =
      write_ends-IsCounted before e behind up id now r _ h (Run-IsCounted r run)

-- Once Wait returns, every entry that Record was called with is a row of the table, unless its
-- write failed and the failure was logged; and the table has grown by one row for each entry
-- whose write did not fail, whatever the order in which the writes were started and ended.
pub Run-IsFlushed :
    (table : List EntryRow) (r : Recorder)
    → Run table r
    → WaitReturns r
    → All (IsFlushed r) r.handed
      × (length r.table + length r.logged ≡ length table + length r.handed)
Run-IsFlushed table r run returns = (
  All-impl (IsKept r) (IsFlushed r) landed r.handed (Run-IsKept table r run),
  (let k = Run-IsCounted table r run in
      let none_left : length r.in_flight ≡ 0 = ap length returns in ground (arith, k, none_left)),
)
  where
    not_in_none : (x : Entry) → Memᴰ x [] → ⊥
    not_in_none x m = elim m [ ]

    landed : (x : Entry) → IsKept r x → IsFlushed r x
    landed x (inl m) = absurd (not_in_none x (subst (Memᴰ x) returns m))
    landed x (inr k) = k
