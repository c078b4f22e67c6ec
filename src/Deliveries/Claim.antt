-- ===== src/Deliveries/Claim.antt =====
-- What the two claim statements of deliveries/store.go guarantee the workers.
use mathlib.Core.Path.{subst}
use stonesuite_notify.Base.{
  ℕ, ◌+◌, ◌≤◌, ◌<◌, ◌≡◌, refl, sym, ◌⊎◌, inl, inr, Bool, true, false, String, List, map, arith,
  Bool-cases, contains, length, All, Changed, Changed-impl, IsKeyed, ◌==◌, ok, ok-injective,
}
use stonesuite_notify.Deliveries.{
  DeliveryRow, Delivery, Status, pending, processing, retrying, sent, failed, skipped, status_text,
  scan_delivery, start_processing, claim, is_pending_due, is_retry_due, claim_pending, claim_due,
  in_status,
}
use stonesuite_notify.Deliveries.Picked.{
  claim-Changed, claim-IsKeyed, claim-processing, length-claim, IsWaiting, claim-claim_disjoint,
  claim-returned, id_of,
}

-- A claim that a worker makes: the QueueConsumer's or the RetryWorker's.
pub data Claims (stale_after clock now : ℕ) (table : List DeliveryRow)
    (result : List DeliveryRow × List Delivery) : Type 0 where
  by_consumer :
      (locked : String → Bool) (batch_size : ℕ)
      → claim_pending true locked batch_size now table ≡ ok result
      → Claims stale_after clock now table result
  by_retry_worker :
      (locked : String → Bool) (batch_size : ℕ)
      → claim_due true locked batch_size stale_after clock now table ≡ ok result
      → Claims stale_after clock now table result

status_text-injective : (s t : Status) → (status_text s == status_text t) ≡ true → s ≡ t
unfolding status_text
status_text-injective pending pending h = refl
status_text-injective processing processing h = refl
status_text-injective sent sent h = refl
status_text-injective retrying retrying h = refl
status_text-injective failed failed h = refl
status_text-injective skipped skipped h = refl
status_text-injective _ _ h = cc

in_status-status : (s : Status) (r : DeliveryRow) → in_status s r ≡ true → r.status ≡ s
unfolding in_status
in_status-status s r h = status_text-injective r.status s h

is_pending_due-pending :
    (now : ℕ) (r : DeliveryRow) → is_pending_due now r ≡ true → r.status ≡ pending
unfolding is_pending_due
is_pending_due-pending now r due = in_status-status pending r (ground arith)

is_retry_due-waiting :
    (stale_after clock now : ℕ) (r : DeliveryRow)
    → is_retry_due stale_after clock now r ≡ true
    → (r.status ≡ retrying) ⊎ ((r.status ≡ processing) × (r.updated_at + stale_after ≤ clock))
unfolding is_retry_due
is_retry_due-waiting stale_after clock now r due =
    ground (arith, in_status-status retrying r, in_status-status processing r)

claim_pending-result :
    (now : ℕ) (table : List DeliveryRow) (result : List DeliveryRow × List Delivery)
    (locked : String → Bool) (batch_size : ℕ)
    → claim_pending true locked batch_size now table ≡ ok result
    → result ≡ claim (is_pending_due now) locked batch_size now table
unfolding claim_pending
claim_pending-result now table result locked batch_size e = sym (ok-injective _ _ e)

claim_due-result :
    (stale_after clock now : ℕ) (table : List DeliveryRow)
    (result : List DeliveryRow × List Delivery) (locked : String → Bool) (batch_size : ℕ)
    → claim_due true locked batch_size stale_after clock now table ≡ ok result
    → result ≡ claim (is_retry_due stale_after clock now) locked batch_size now table
unfolding claim_due
claim_due-result stale_after clock now table result locked batch_size e = sym (ok-injective _ _ e)

-- Either claim is an instance of `claim`, whose condition holds only of rows that wait: pending,
-- retrying, or processing and stale.
pub Claims-claim :
    {stale_after clock now : ℕ} {table : List DeliveryRow}
    {result : List DeliveryRow × List Delivery}
    → Claims stale_after clock now table result
    → (due : DeliveryRow → Bool) × (locked : String → Bool) × (batch_size : ℕ) × (result
        ≡ claim due locked batch_size now table)
      × ((r : DeliveryRow) → due r ≡ true → IsWaiting stale_after clock r)
Claims-claim {stale_after} {clock} {now} {table} {result} (by_consumer locked batch_size e) = (
  is_pending_due now,
  locked,
  batch_size,
  claim_pending-result now table result locked batch_size e,
  (λ r due. inl (is_pending_due-pending now r due)),
)
Claims-claim {stale_after} {clock} {now} {table} {result} (by_retry_worker locked batch_size e) = (
  is_retry_due stale_after clock now,
  locked,
  batch_size,
  claim_due-result stale_after clock now table result locked batch_size e,
  (λ r due. inr (is_retry_due-waiting stale_after clock now r due)),
)

not-IsWaiting :
    (stale_after clock now : ℕ) (r : DeliveryRow)
    → clock < now + stale_after
    → ¬ IsWaiting stale_after clock (start_processing now r)
not-IsWaiting stale_after clock now r fresh h = ground arith

-- A worker's claim changes only rows that wait (pending, retrying, or processing and stale) and
-- that no other transaction has locked, and of those only the status, which becomes processing,
-- and updated_at. The ids stay distinct, and every returned delivery is processing.
pub Claims-Changed :
    (stale_after clock now : ℕ) (table : List DeliveryRow)
    (result : List DeliveryRow × List Delivery)
    → IsKeyed id_of table
    → Claims stale_after clock now table result
    → Changed (IsWaiting stale_after clock) (start_processing now) table result.0
      × IsKeyed id_of result.0
      × All (λ d. d.status ≡ processing) result.1
Claims-Changed stale_after clock now table result keyed c =
    let (due, locked, batch_size, same, waiting) = Claims-claim c in
    rw same (
      Changed-impl _ _ (λ r free. waiting r free.0)
          (claim-Changed due locked batch_size now table keyed),
      claim-IsKeyed due locked batch_size now table keyed,
      claim-processing due locked batch_size now table,
    )

pub Claims-returned {κ μ} :
    (P : DeliveryRow → Type κ) (Q : Delivery → Type μ)
    → ((r : DeliveryRow) → r.status ≡ processing → P r → Q (scan_delivery r))
    → (stale_after clock now : ℕ) (table : List DeliveryRow)
      (result : List DeliveryRow × List Delivery)
    → Claims stale_after clock now table result
    → All P result.0
    → All Q result.1
Claims-returned P Q f stale_after clock now table result c h =
    let (due, locked, batch_size, same, waiting) = Claims-claim c in
    rw same (
      claim-returned P Q f due locked batch_size now table
        (subst (λ (p : List DeliveryRow × List Delivery). All P p.0) same h))

-- A claim of n rows at most returns n deliveries at most, for both claim statements.
pub claim_length-le :
    (locked : String → Bool) (batch_size stale_after clock now : ℕ) (table : List DeliveryRow)
    (result : List DeliveryRow × List Delivery)
    → IsKeyed id_of table
    → (claim_pending true locked batch_size now table ≡ ok result)
      ⊎ (claim_due true locked batch_size stale_after clock now table ≡ ok result)
    → length result.1 ≤ batch_size
claim_length-le locked batch_size stale_after clock now table result keyed (inl e) =
    rw (claim_pending-result now table result locked batch_size e)
      (length-claim (is_pending_due now) locked batch_size now table keyed)
claim_length-le locked batch_size stale_after clock now table result keyed (inr e) =
    rw (claim_due-result stale_after clock now table result locked batch_size e)
      (length-claim (is_retry_due stale_after clock now) locked batch_size now table keyed)

-- A delivery that a worker has just claimed is not claimed again: of the deliveries that one claim
-- returns, the next claim on the resulting table, by either worker, returns none, if it runs before
-- the stale threshold has passed.
pub Claims-Claims_disjoint :
    (stale_after clock now clock' now' : ℕ) (table : List DeliveryRow)
    (first second : List DeliveryRow × List Delivery)
    → Claims stale_after clock now table first
    → Claims stale_after clock' now' first.0 second
    → clock' < now + stale_after
    → All (λ d. contains d.id (map (λ e. e.id) first.1) ≡ false) second.1
Claims-Claims_disjoint stale_after clock now clock' now' table first second c c' fresh =
    let (due, locked, batch_size, same, waiting) = Claims-claim c in
    let (due', locked', batch_size', same', waiting') = Claims-claim c' in
    let not_due : (r : DeliveryRow) → due' (start_processing now r) ≡ false = λ r.
      elim (Bool-cases (due' (start_processing now r))) [
        | inl e ↦ absurd (not-IsWaiting stale_after clock' now r fresh (waiting' _ e))
        | inr e ↦ e
      ] in
    rw same' (
      rw same (
        claim-claim_disjoint due due' locked locked' batch_size batch_size' now now' table not_due))
