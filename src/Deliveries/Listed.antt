-- ===== src/Deliveries/Listed.antt =====
-- The delivery log that the dashboards read.
use stonesuite_notify.Base.{
  ℕ, ◌≤◌, ◌≡◌, String, true, List, length, length-map, length-take-le, take, arith, All, All-map,
  All-take, All-sort_by, All-select_self, select, sort_by, eq_iff, ok, ok-injective,
}
use mathlib.Core.Path.{subst}
use stonesuite_notify.Base.Int.{ℤ, pos, negsuc}
use stonesuite_notify.Deliveries.{
  DeliveryRow, Delivery, scan_delivery, status_text, max_list_by_status_limit, list_limit,
  later_update, has_status_since, list_by_status,
}

-- What a listed delivery is: of the tenant, in the status, updated at `since` or later.
pub record IsListed (tenant_id status : String) (since : ℕ) (d : Delivery) : Type 0 where
  pub tenant : d.tenant_id ≡ tenant_id
  pub in_it : status_text d.status ≡ status
  pub recent : since ≤ d.updated_at

listed :
    (t s : String) (since : ℕ) (r : DeliveryRow)
    → has_status_since t s since r ≡ true
    → IsListed t s since (scan_delivery r)
unfolding has_status_since scan_delivery
listed t s since r h = record {
  tenant = (eq_iff r.tenant_id t).0 (ground arith);
  in_it = (eq_iff (status_text r.status) s).0 (ground arith);
  recent = ground arith;
}

list_limit-le : (limit : ℤ) → list_limit limit ≤ max_list_by_status_limit
unfolding list_limit
list_limit-le (pos n) = ground arith
list_limit-le (negsuc n) = omega arith

-- A list by status holds only deliveries of the tenant in that status, updated since the given
-- time, and never more than 200 of them, whatever limit is asked for.
pub list_by_status-IsListed :
    (tenant_id status : String) (since : ℕ) (limit : ℤ) (table : List DeliveryRow)
    (ds : List Delivery)
    → list_by_status true tenant_id status since limit table ≡ ok ds
    → All (IsListed tenant_id status since) ds × (length ds ≤ max_list_by_status_limit)
unfolding list_by_status
list_by_status-IsListed t s since limit table ds e =
    let rows = sort_by later_update (select (has_status_since t s since) table) in
    subst (λ xs. All (IsListed t s since) xs × (length xs ≤ max_list_by_status_limit))
      (ok-injective _ ds e)
      (
        All-map (IsListed t s since) scan_delivery (take (list_limit limit) rows) (
            All-take (λ r. IsListed t s since (scan_delivery r)) (list_limit limit) rows
              (All-sort_by later_update (λ r. IsListed t s since (scan_delivery r)) _
                (All-select_self (λ r. IsListed t s since (scan_delivery r))
                  (has_status_since t s since) (listed t s since) table))),
        omega (
          arith,
          length-map scan_delivery (take (list_limit limit) rows),
          length-take-le (list_limit limit) rows,
          list_limit-le limit,
        ),
      )
