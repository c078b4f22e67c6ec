-- ===== src/Deliveries/Picked.antt =====
-- deliveries/store.go: the rows that a claim picks, and what it does to them.
use mathlib.Core.Path.{subst}
use stonesuite_notify.Base.{
  ℕ, ◌+◌, ◌≤◌, ◌≡◌, refl, ◌⊎◌, inl, inr, Bool, true, false, not, ◌&&◌, String, List, map, arith,
  Bool-cases, select, update, order_by, take, contains, length, All, All-take, All-map, All-impl,
  All-select_with, All-and, All-order_by, All-mem, All-of_mem, Changed, update-Changed, IsKeyed,
  IsKeyed-unique, IsKeyed-select, IsKeyed-update, contains-map, contains-map-false, contains-All,
  length-map, update-All_hit, All-returning, All-select_self, length-take-le,
}
use stonesuite_notify.Deliveries.{
  DeliveryRow, Delivery, pending, processing, retrying, scan_delivery, start_processing, due_ids,
  claim,
}

abbrev pub id_of : DeliveryRow → String
id_of r = r.id

-- A row that the claim may take: due, and not locked by another transaction.
abbrev pub IsFree : (DeliveryRow → Bool) → (String → Bool) → DeliveryRow → Type 0
IsFree due locked r = (due r ≡ true) × (locked r.id ≡ false)

-- A row that some worker may claim: pending, retrying, or processing and stale.
abbrev pub IsWaiting : ℕ → ℕ → DeliveryRow → Type 0
IsWaiting stale_after clock r =
    (r.status ≡ pending)
    ⊎ ((r.status ≡ retrying) ⊎ ((r.status ≡ processing) × (r.updated_at + stale_after ≤ clock)))

module _ (due : DeliveryRow → Bool) (locked : String → Bool) (batch_size : ℕ) where
  -- The rows whose ids `due_ids` lists satisfy what all due rows of the table do.
  abbrev picked : List DeliveryRow → List DeliveryRow
  picked table =
      take batch_size
        (order_by (λ r. r.created_at) (select (λ r. due r && not (locked r.id)) table))

  picked-All {κ} :
      (P : DeliveryRow → Type κ) (table : List DeliveryRow)
      → All P table
      → All (λ r. IsFree due locked r × P r) (picked table)
  picked-All P table h = All-take _ batch_size _ (
      All-order_by _ (λ r. r.created_at) _
        (All-select_with P _ _ (λ r e p. ((ground arith, ground arith), p)) table h))

  -- What holds of every due row's id holds of the ids picked.
  due_ids-All {κ} :
      (P : String → Type κ) (table : List DeliveryRow)
      → All (λ r. due r ≡ true → P r.id) table
      → All P (due_ids due locked batch_size table)
  unfolding due_ids
  due_ids-All P table h = All-map P id_of (picked table) (
      All-impl (λ r. IsFree due locked r × (due r ≡ true → P r.id)) (λ r. P r.id) (λ r q. q.1 q.0.0)
        (picked table) (picked-All (λ r. due r ≡ true → P r.id) table h))

  -- With distinct ids, a row whose id is picked is itself free.
  due_ids-IsFree :
      (table : List DeliveryRow)
      → IsKeyed id_of table
      → All
          (λ r. contains r.id (due_ids due locked batch_size table) ≡ true → IsFree due locked r)
          table
  unfolding due_ids
  due_ids-IsFree table keyed = All-of_mem _ table λ r m found.
      let (y, picked_y, same) = contains-map id_of r.id (picked table) found in
      let (free, only) =
        All-mem _ y (picked table)
          (picked-All (λ z. z.id ≡ r.id → z ≡ r) table (IsKeyed-unique id_of r table m keyed))
          picked_y in
      subst (IsFree due locked) (only same) free

  length-due_ids :
      (table : List DeliveryRow) → length (due_ids due locked batch_size table) ≤ batch_size
  unfolding due_ids
  length-due_ids table = rw (length-map id_of (picked table)) (length-take-le batch_size _)

  module _ (now : ℕ) (table : List DeliveryRow) where
    pub claim-Changed :
        IsKeyed id_of table
        → Changed
            (IsFree due locked)
            (start_processing now)
            table
            (claim due locked batch_size now table).0
    unfolding claim
    claim-Changed keyed = update-Changed _ _ _ table (due_ids-IsFree table keyed)

    pub claim-IsKeyed :
        IsKeyed id_of table → IsKeyed id_of (claim due locked batch_size now table).0
    unfolding claim
    claim-IsKeyed keyed = IsKeyed-update id_of _ _ (λ r. refl) table keyed

    pub length-claim :
        IsKeyed id_of table → length (claim due locked batch_size now table).1 ≤ batch_size
    unfolding claim
    length-claim keyed =
        let ids = due_ids due locked batch_size table in
        rw length-map
          (omega (arith, IsKeyed-select id_of ids _ (claim-IsKeyed keyed), length-due_ids table))

    abbrev is_picked : DeliveryRow → Bool
    is_picked r = contains r.id (due_ids due locked batch_size table)

    pub claim-processing :
        All (λ d. d.status ≡ processing) (claim due locked batch_size now table).1
    unfolding claim scan_delivery
    claim-processing =
        All-map (λ d. d.status ≡ processing) scan_delivery _
          (All-returning (λ r. r.status ≡ processing) is_picked (start_processing now) (λ r _. refl)
            table)

    -- The ids of the returned deliveries are picked ones.
    claim-ids :
        All
          (λ d. contains d.id (due_ids due locked batch_size table) ≡ true)
          (claim due locked batch_size now table).1
    unfolding claim scan_delivery
    claim-ids =
        All-map (λ d. contains d.id (due_ids due locked batch_size table) ≡ true) scan_delivery _
          (All-select_self (λ r. is_picked r ≡ true) is_picked (λ r e. e)
            (update is_picked (start_processing now) table))

-- What a row in processing and its property give holds of every returned delivery.
pub claim-returned {κ μ} :
    (P : DeliveryRow → Type κ) (Q : Delivery → Type μ)
    → ((r : DeliveryRow) → r.status ≡ processing → P r → Q (scan_delivery r))
    → (due : DeliveryRow → Bool) (locked : String → Bool) (batch_size now : ℕ)
      (table : List DeliveryRow)
    → All P (claim due locked batch_size now table).0
    → All Q (claim due locked batch_size now table).1
unfolding claim
claim-returned P Q f due locked batch_size now table h = All-map Q scan_delivery _ (
    All-select_with (λ r. (hit r ≡ true → r.status ≡ processing) × P r) (λ r. Q (scan_delivery r))
      hit (λ r e b. f r (b.0 e) b.1) _
      (All-and (λ r. hit r ≡ true → r.status ≡ processing) P _
        (update-All_hit (λ r. r.status ≡ processing) hit (start_processing now) (λ r _. refl) table)
        h))
  where
    hit : DeliveryRow → Bool
    hit r = contains r.id (due_ids due locked batch_size table)

-- A second claim, whose condition does not hold of a row just claimed, returns none of the
-- deliveries that the first one returned.
pub claim-claim_disjoint :
    (due due' : DeliveryRow → Bool) (locked locked' : String → Bool)
    (batch_size batch_size' now now' : ℕ) (table : List DeliveryRow)
    → ((r : DeliveryRow) → due' (start_processing now r) ≡ false)
    → let (claimed, returned) = claim due locked batch_size now table in
      All
        (λ d. contains d.id (map (λ e. e.id) returned) ≡ false)
        (claim due' locked' batch_size' now' claimed).1
unfolding claim scan_delivery
claim-claim_disjoint due due' locked locked' batch_size batch_size' now now' table not_due =
    All-map (λ d. contains d.id (map (λ e. e.id) returned) ≡ false) scan_delivery _
      (All-select_self (λ r. contains r.id (map (λ e. e.id) returned) ≡ false)
        (λ r. contains r.id ids')
        (λ r found.
          contains-map-false (λ d. d.id) r.id ids returned
            (claim-ids due locked batch_size now table)
            (contains-All (λ i. contains i ids ≡ false) r.id ids' others found))
        _)
  where
    ids : List String
    ids = due_ids due locked batch_size table

    claimed : List DeliveryRow
    claimed = (claim due locked batch_size now table).0

    returned : List Delivery
    returned = (claim due locked batch_size now table).1

    ids' : List String
    ids' = due_ids due' locked' batch_size' claimed

    not_taken : All (λ r. due' r ≡ true → contains r.id ids ≡ false) claimed
    not_taken =
        All-impl (λ r. contains r.id ids ≡ true → due' r ≡ false)
          (λ r. due' r ≡ true → contains r.id ids ≡ false)
          (λ r h due_now. elim (Bool-cases (contains r.id ids)) [ inl e ↦ cc (h e) | inr e ↦ e ])
          claimed (update-All_hit (λ r. due' r ≡ false) _ _ (λ r _. not_due r) table)

    others : All (λ i. contains i ids ≡ false) ids'
    others = due_ids-All due' locked' batch_size' (λ i. contains i ids ≡ false) claimed not_taken
