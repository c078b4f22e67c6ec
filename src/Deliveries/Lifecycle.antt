-- ===== src/Deliveries/Lifecycle.antt =====
-- Deliveries under any number of concurrent workers, as a step relation over the store's
-- operations: what the workers hold are snapshots of rows, which later writes do not refresh.
use mathlib.Core.List.{Memᴰ}
use mathlib.Core.Path.{subst}
use stonesuite_notify.Base.{
  ℕ, ◌+◌, ◌≤◌, ◌<◌, ◌≡◌, refl, ap, ◌⊎◌, inr, Bool, true, String, List, [], ◌∷◌, ◌++◌, Option, arith,
  select, All, All-append, All-update, All-select, All-mem, Changed-All, IsKeyed, IsKeyed-update,
  IsKeyed-append_one, ◌≢◌, ok, ok-injective, ◌==◌,
}
use stonesuite_notify.Base.Json.{Json}
use stonesuite_notify.Deliveries.{
  DeliveryRow, Delivery, Status, pending, processing, sent, retrying, failed, skipped, Channel,
  scan_delivery, start_processing, set_row, enqueue, mark_sent, mark_skipped, mark_retrying,
  sent_row, skipped_row, retried_row, new_row, max_attempts_allowed,
}
use stonesuite_notify.Deliveries.Claim.{Claims, Claims-Changed, Claims-returned}
use stonesuite_notify.Deliveries.Picked.{IsWaiting}

pub record Queue : Type 0 where
  pub table : List DeliveryRow
  -- What the workers hold: claimed deliveries, as they were read.
  pub working : List Delivery

-- One step of the system: the create handler, a worker, or a crash.
pub data Step (stale_after : ℕ) (q : Queue) : Queue → Type 0 where
  enqueued :
      {t : List DeliveryRow} {d : Delivery} (id : String) (now : ℕ)
      (notification_id tenant_id recipient_user_id : String) (channel : Channel) (status : Status)
      → (status ≡ pending) ⊎ ((status ≡ sent) ⊎ (status ≡ skipped))
      → All (λ r. r.id ≢ id) q.table
      → enqueue true id now notification_id tenant_id recipient_user_id channel status q.table
        ≡ ok (t, d)
      → Step stale_after q (record { table = t; working = q.working })
  claimed :
      {t : List DeliveryRow} {ds : List Delivery} (clock now : ℕ)
      → Claims stale_after clock now q.table (t, ds)
      → Step stale_after q (record { table = t; working = q.working ++ ds })
  delivered :
      {t : List DeliveryRow} (d : Delivery) (provider_response : Option Json)
      (provider_email_id : String) (now : ℕ)
      → Memᴰ d q.working
      → mark_sent true d.id provider_response provider_email_id now q.table ≡ ok t
      → Step stale_after q (record { table = t; working = q.working })
  nothing_to_do :
      {t : List DeliveryRow} (d : Delivery) (provider_response : Option Json) (now : ℕ)
      → Memᴰ d q.working
      → mark_skipped true d.id provider_response now q.table ≡ ok t
      → Step stale_after q (record { table = t; working = q.working })
  attempt_failed :
      {t : List DeliveryRow} (d : Delivery) (last_error : String) (provider_response : Option Json)
      (clock now : ℕ)
      → Memᴰ d q.working
      → mark_retrying true d.id (d.attempts + 1) last_error provider_response clock now q.table
        ≡ ok t
      → Step stale_after q (record { table = t; working = q.working })
  -- Workers finish or crash: some of what they held is dropped.
  dropped :
      (keep : Delivery → Bool)
      → Step stale_after q (record { table = q.table; working = select keep q.working })

pub data Reach (stale_after : ℕ) : Queue → Type 0 where
  empty : Reach stale_after (record { table = []; working = [] })
  next : {q r : Queue} → Reach stale_after q → Step stale_after q r → Reach stale_after r

-- The attempts of a row fit its status.
pub record IsBounded (r : DeliveryRow) : Type 0 where
  pub at_most : r.attempts ≤ max_attempts_allowed
  pub open_below :
      (r.status ≡ pending) ⊎ ((r.status ≡ retrying) ⊎ (r.status ≡ processing))
      → r.attempts < max_attempts_allowed
  pub failed_at : r.status ≡ failed → r.attempts ≡ max_attempts_allowed

abbrev pub id_of : DeliveryRow → String
id_of r = r.id

abbrev HasBudget : Delivery → Type 0
HasBudget d = d.attempts < max_attempts_allowed

pub record IsSound (q : Queue) : Type 0 where
  pub keyed : IsKeyed id_of q.table
  pub rows : All IsBounded q.table
  pub held : All HasBudget q.working

new_row-IsBounded :
    (id : String) (now : ℕ) (notification_id tenant_id recipient_user_id : String)
    (channel : Channel) (status : Status)
    → (status ≡ pending) ⊎ ((status ≡ sent) ⊎ (status ≡ skipped))
    → IsBounded (new_row id now notification_id tenant_id recipient_user_id channel status)
unfolding new_row
new_row-IsBounded id now n t u c s h = ground arith

start_processing-IsBounded :
    (stale_after clock now : ℕ) (r : DeliveryRow)
    → IsWaiting stale_after clock r
    → IsBounded r
    → IsBounded (start_processing now r) × HasBudget (scan_delivery (start_processing now r))
unfolding scan_delivery
start_processing-IsBounded stale_after clock now r w b = (ground arith, ground arith)

sent_row-IsBounded :
    (resp : Option Json) (pid : String) (now : ℕ) (r : DeliveryRow)
    → IsBounded r
    → IsBounded (sent_row resp pid now r)
unfolding sent_row
sent_row-IsBounded resp pid now r b = ground arith

skipped_row-IsBounded :
    (resp : Option Json) (now : ℕ) (r : DeliveryRow)
    → IsBounded r
    → IsBounded (skipped_row resp now r)
unfolding skipped_row
skipped_row-IsBounded resp now r b = ground arith

sent_row-id :
    (resp : Option Json) (pid : String) (now : ℕ) (r : DeliveryRow)
    → (sent_row resp pid now r).id ≡ r.id
unfolding sent_row
sent_row-id resp pid now r = refl

skipped_row-id :
    (resp : Option Json) (now : ℕ) (r : DeliveryRow) → (skipped_row resp now r).id ≡ r.id
unfolding skipped_row
skipped_row-id resp now r = refl

retried_row-id :
    (n : ℕ) (e : String) (resp : Option Json) (clock now : ℕ) (r : DeliveryRow)
    → (retried_row n e resp clock now r).id ≡ r.id
unfolding retried_row
retried_row-id n e resp clock now r = refl

retried_row-IsBounded :
    (n : ℕ) (e : String) (resp : Option Json) (clock now : ℕ) (r : DeliveryRow)
    → n < max_attempts_allowed
    → IsBounded (retried_row (n + 1) e resp clock now r)
unfolding retried_row
retried_row-IsBounded n e resp clock now r h = ground arith

scan-HasBudget :
    (r : DeliveryRow) → r.status ≡ processing → IsBounded r → HasBudget (scan_delivery r)
unfolding scan_delivery
scan-HasBudget r e b = b.open_below (inr (inr e))

-- An UPDATE by id keeps the invariant if it keeps the bound of a row.
set_row-IsSound :
    (q : Queue) (id : String) (f : DeliveryRow → DeliveryRow)
    → ((r : DeliveryRow) → (f r).id ≡ r.id)
    → ((r : DeliveryRow) → IsBounded r → IsBounded (f r))
    → IsSound q
    → IsSound (record { table = set_row id f q.table; working = q.working })
set_row-IsSound q id f same keep s = record {
  keyed = IsKeyed-update id_of (λ r. r.id == id) f same q.table s.keyed;
  rows = All-update IsBounded (λ r. r.id == id) f (λ r _ b. keep r b) q.table s.rows;
  held = s.held;
}

table-IsSound :
    {t u : List DeliveryRow} {ds : List Delivery}
    → ok t ≡ ok u
    → IsSound (record { table = t; working = ds })
    → IsSound (record { table = u; working = ds })
table-IsSound {t} {u} {ds} e s =
    subst (λ x. IsSound (record { table = x; working = ds })) (ok-injective t u e) s

Step-IsSound : {stale_after : ℕ} {q r : Queue} → Step stale_after q r → IsSound q → IsSound r
unfolding enqueue mark_sent mark_skipped mark_retrying
Step-IsSound {q = q} (enqueued {t = t'} {d} id now n t u c st allowed fresh e) s =
    let row = new_row id now n t u c st in
    subst (λ x. IsSound (record { table = x; working = q.working }))
      (ap (λ (p : List DeliveryRow × Delivery). p.0) (ok-injective _ (t', d) e))
      (record {
        keyed = IsKeyed-append_one id_of q.table row s.keyed fresh;
        rows =
            All-append IsBounded q.table (row ∷ []) s.rows
              (new_row-IsBounded id now n t u c st allowed, tt);
        held = s.held;
      })
Step-IsSound {stale_after} {q} (claimed {t} {ds} clock now c) s =
    let (changed_rows, keyed, _) = Claims-Changed stale_after clock now q.table (t, ds) s.keyed c in
    let rows : All IsBounded t =
      Changed-All IsBounded (λ r w b. (start_processing-IsBounded stale_after clock now r w b).0)
        changed_rows s.rows in
    record {
      keyed = keyed;
      rows = rows;
      held = All-append HasBudget q.working ds s.held (
          Claims-returned IsBounded HasBudget scan-HasBudget stale_after clock now q.table (t, ds) c
            rows);
    }
Step-IsSound {q = q} (delivered d resp pid now m e) s = table-IsSound e (
    set_row-IsSound q d.id (sent_row resp pid now) (sent_row-id resp pid now)
      (sent_row-IsBounded resp pid now) s)
Step-IsSound {q = q} (nothing_to_do d resp now m e) s = table-IsSound e (
    set_row-IsSound q d.id (skipped_row resp now) (skipped_row-id resp now)
      (skipped_row-IsBounded resp now) s)
Step-IsSound {q = q} (attempt_failed d msg resp clock now m e) s = table-IsSound e (
    set_row-IsSound q d.id (retried_row (d.attempts + 1) msg resp clock now)
      (retried_row-id (d.attempts + 1) msg resp clock now)
      (λ r _.
        retried_row-IsBounded d.attempts msg resp clock now r
          (All-mem HasBudget d q.working s.held m))
      s)
Step-IsSound {q = q} (dropped keep) s = record {
  keyed = s.keyed;
  rows = s.rows;
  held = All-select HasBudget keep q.working s.held;
}

-- Whatever the workers do, in any order and with any crashes, no delivery counts more than 5
-- attempts, one that may still be claimed has counted fewer, a failed one has counted 5, and the
-- ids stay distinct. (A claim is not counted, only an attempt whose failure is recorded.)
pub Reach-IsSound : {stale_after : ℕ} {q : Queue} → Reach stale_after q → IsSound q
Reach-IsSound empty = record { keyed = tt; rows = tt; held = tt }
Reach-IsSound (next r st) = Step-IsSound st (Reach-IsSound r)
