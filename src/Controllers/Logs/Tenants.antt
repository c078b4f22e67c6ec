-- ===== src/Controllers/Logs/Tenants.antt =====
-- What an administrator reads is of the administrator's own tenant.
use stonesuite_notify.Base.{
  ℕ, ◌≡◌, ◌≢◌, refl, inl, inr, String, Bool, true, false, ◌&&◌, ◌==◌, eq_iff, Option, none, some,
  List, contains, Result, ok, err, ok-injective, Bool-cases, All, All-map, All-impl, All-order_by,
  All-select_self, arith,
}
use mathlib.Core.Path.{subst}
use stonesuite_notify.Base.Int.{ℤ}
use stonesuite_notify.Audit
use stonesuite_notify.Audit.{Entry, EntryRow, Filter}
use stonesuite_notify.Audit.Trail.{list-tenant}
use stonesuite_notify.Deliveries.{
  DeliveryRow, Delivery, scan_delivery, list_by_status, list_for_notification,
}
use stonesuite_notify.Deliveries.Listed.{IsListed, list_by_status-IsListed}
use stonesuite_notify.Middleware.{UserContext}
use stonesuite_notify.Controllers.{Reply, refused, answered, Request, World, Net}
use stonesuite_notify.Controllers.Page.{Pagination}
use stonesuite_notify.Controllers.Logs.{
  ParseTime, viewed, delivery_log, admin_deliveries, user_actor, status_of, known_statuses,
  listed_by, listed_since, by_status, admin_by_status, paged, with_times, audit_log,
  admin_audit_log,
}

-- What holds of the data of an answer; a refusal has none.
abbrev pub Answers : {A : Type 0} → (A → Type 0) → Reply A → Type 0
Answers P (refused status message) = Unit
Answers P (answered status a) = P a

abbrev pub IsOwn : UserContext → Delivery → Type 0
IsOwn u d = d.tenant_id ≡ u.tenant_id

list_for_notification-tenant :
    (up : Bool) (tenant_id id : String) (table : List DeliveryRow) (ds : List Delivery)
    → list_for_notification up tenant_id id table ≡ ok ds
    → All (λ d. d.tenant_id ≡ tenant_id) ds
unfolding list_for_notification
list_for_notification-tenant false t id table ds h = cc
list_for_notification-tenant true t id table ds h =
    subst (All (λ d. d.tenant_id ≡ t)) (ok-injective _ ds h) (
      All-map (λ d. d.tenant_id ≡ t) scan_delivery _
        (All-order_by (λ r. (scan_delivery r).tenant_id ≡ t) (λ r. r.created_at) _
          (All-select_self (λ r. (scan_delivery r).tenant_id ≡ t)
            (λ r. r.tenant_id == t && r.notification_id == id) own table)))
  where
    own :
        (r : DeliveryRow)
        → (r.tenant_id == t && r.notification_id == id) ≡ true
        → (scan_delivery r).tenant_id ≡ t
    own r k = unfold scan_delivery in (eq_iff r.tenant_id t).0 (ground (arith, k))

down_lists_nothing :
    (t s : String) (since : ℕ) (limit : ℤ) (table : List DeliveryRow) (ds : List Delivery)
    → list_by_status false t s since limit table ≢ ok ds
unfolding list_by_status
down_lists_nothing t s since limit table ds h = cc

module _ (net : Net) (u : UserContext) (r : Request) (w : World) where
  viewed-IsOwn :
      (up : Bool) (actor : Entry) (rows : Result (List Delivery))
      → list_for_notification up u.tenant_id r.path_id w.deliveries ≡ rows
      → Answers (All (IsOwn u)) (viewed net up r actor rows w).1
  viewed-IsOwn up actor (err e) k = tt
  viewed-IsOwn up actor (ok ds) k = list_for_notification-tenant up u.tenant_id r.path_id _ ds k

  admin_deliveries-IsOwn :
      (up : Bool) → Answers (All (IsOwn u)) (admin_deliveries net up r (some u) w).1
  unfolding admin_deliveries delivery_log
  admin_deliveries-IsOwn up = elim (Bool-cases (r.path_id == "")) [
    | inl e ↦ rw e tt
    | inr e ↦ rw e (viewed-IsOwn up (user_actor u) _ refl)
  ]

  module _ (parse_time : ParseTime) (clock : ℕ) where
    -- The deliveries are the tenant's, and in the status that is named beside them.
    abbrev pub InStatus : List Delivery × String → Type 0
    InStatus (ds, status) = All (λ d. ((since : ℕ) × IsListed u.tenant_id status since d)) ds

    listed_by-InStatus :
        (up : Bool) (actor : Entry) (since : ℕ) (limit : ℤ) (rows : Result (List Delivery))
        → list_by_status up u.tenant_id
            (status_of net parse_time clock up r)
            since
            limit
            w.deliveries
          ≡ rows
        → Answers InStatus (listed_by net parse_time clock up r actor rows w).1
    listed_by-InStatus up actor since limit (err e) k = tt
    listed_by-InStatus false actor since limit (ok ds) k =
        absurd (down_lists_nothing u.tenant_id _ since limit w.deliveries ds k)
    listed_by-InStatus true actor since limit (ok ds) k =
        All-impl _ _ (λ d h. (since, h)) ds
          (list_by_status-IsListed u.tenant_id _ since limit w.deliveries ds k).0

    listed_since-InStatus :
        (up : Bool) (actor : Entry) (since : Option ℕ)
        → Answers InStatus (listed_since net parse_time clock up r u.tenant_id actor since w).1
    listed_since-InStatus up actor none = tt
    listed_since-InStatus up actor (some since) = listed_by-InStatus up actor since _ _ refl

    admin_by_status-InStatus :
        (up : Bool) → Answers InStatus (admin_by_status net parse_time clock up r (some u) w).1
    unfolding admin_by_status by_status
    admin_by_status-InStatus up =
        elim (Bool-cases (contains (status_of net parse_time clock up r) known_statuses)) [
          | inl e ↦ rw e (listed_since-InStatus up (user_actor u) _)
          | inr e ↦ rw e tt
        ]

module _ (parse_time : ParseTime) (u : UserContext) (r : Request) (trail : List EntryRow) where
  abbrev pub OwnEntries : List Entry × Pagination → Type 0
  OwnEntries (es, pagination) = All (λ e. e.tenant_id ≡ u.tenant_id) es

  paged-OwnEntries :
      (up up' : Bool) (params : ℕ × ℕ) (f : Filter) (found : Result (List Entry × ℕ))
      → Audit.list up up' u.tenant_id f trail ≡ found
      → Answers OwnEntries (paged parse_time up up' r params found)
  paged-OwnEntries up up' params f (err e) k = tt
  paged-OwnEntries true true params f (ok (es, total)) k =
      (list-tenant u.tenant_id f trail es total k).0
  paged-OwnEntries false up' params f (ok p) k = absurd (no_count up' f p k)
    where
      no_count :
          (up' : Bool) (f : Filter) (p : List Entry × ℕ)
          → Audit.list false up' u.tenant_id f trail ≢ ok p
      no_count up' f p h = unfold Audit.list in cc h
  paged-OwnEntries true false params f (ok p) k = absurd (no_rows f p k)
    where
      no_rows : (f : Filter) (p : List Entry × ℕ) → Audit.list true false u.tenant_id f trail ≢ ok p
      no_rows f p h = unfold Audit.list in cc h

  with_times-OwnEntries :
      (up up' : Bool) (from until : Option (Option ℕ))
      → Answers OwnEntries (with_times parse_time up up' r u.tenant_id trail from until)
  with_times-OwnEntries up up' none until = tt
  with_times-OwnEntries up up' (some from) none = tt
  with_times-OwnEntries up up' (some from) (some until) = paged-OwnEntries up up' _ _ _ refl

  admin_audit_log-OwnEntries :
      (up up' : Bool) → Answers OwnEntries (admin_audit_log parse_time up up' r (some u) trail)
  unfolding admin_audit_log audit_log
  admin_audit_log-OwnEntries up up' = with_times-OwnEntries up up' _ _

-- Whatever an administrator asks for, what is answered is of the tenant of the administrator's
-- token: the delivery log of a notification, the deliveries by status, which are in the status that
-- the answer names, and the audit trail.
pub admin_reads-IsOwn :
    (net : Net) (parse_time : ParseTime) (clock : ℕ) (up up' : Bool) (u : UserContext) (r : Request)
    (w : World) (trail : List EntryRow)
    → Answers (All (IsOwn u)) (admin_deliveries net up r (some u) w).1
      × Answers
          (InStatus net u r w parse_time clock)
          (admin_by_status net parse_time clock up r (some u) w).1
      × Answers
          (OwnEntries parse_time u r trail)
          (admin_audit_log parse_time up up' r (some u) trail)
admin_reads-IsOwn net parse_time clock up up' u r w trail = (
  admin_deliveries-IsOwn net u r w up,
  admin_by_status-InStatus net u r w parse_time clock up,
  admin_audit_log-OwnEntries parse_time u r trail up up',
)
