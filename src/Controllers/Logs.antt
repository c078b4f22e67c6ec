-- ===== src/Controllers/Logs.antt =====
-- controllers/notifications.go, the delivery logs, and controllers/audit.go, the audit trail: what
-- the services and the administrators of a tenant may read.
pub mod Tenants
use stonesuite_notify.Base.{
  ℕ, suc, ◌+◌, ◌-◌, ◌*◌, String, Bool, true, false, not, ◌==◌, Option, none, some, List, [], ◌∷◌,
  length, contains, ltb, if◌then◌else◌, Result, ok, err,
}
use stonesuite_notify.Base.Decimal.{parse_int64}
use stonesuite_notify.Base.Int.{ℤ, pos, negsuc}
use stonesuite_notify.Base.Json.{Json, Fields}
use stonesuite_notify.Audit
use stonesuite_notify.Audit.{Entry, EntryRow, Filter}
use stonesuite_notify.Deliveries.{
  Delivery, list_by_status, list_for_notification, max_list_by_status_limit,
}
use stonesuite_notify.Middleware.{UserContext}
use stonesuite_notify.Controllers.{
  Reply, refused, answered, Request, World, Net, record_audit, no_entry, auth_required,
}
use stonesuite_notify.Controllers.Page.{Pagination, new_pagination, parse_page_params, page_offset}

-- time.Parse of an RFC 3339 time, in nanoseconds, is a parameter.
abbrev pub ParseTime : Type 0
ParseTime = String → Option ℕ

-- The identities that the routes establish.
abbrev pub service_actor : String → Entry
service_actor tenant_id = record no_entry { tenant_id = tenant_id; actor_type = "service" }

abbrev pub user_actor : UserContext → Entry
user_actor u = record no_entry {
  tenant_id = u.tenant_id;
  actor_user_id = u.user_id;
  actor_type = "user";
}

module _ (net : Net) (up : Bool) (r : Request) where
  abbrev viewed : Entry → Result (List Delivery) → World → World × Reply (List Delivery)
  viewed actor (err e) w = (w, refused 500 "Failed to load delivery log.")
  viewed actor (ok rows) w = (
    record_audit net r
        (record actor {
          action = "delivery_log.viewed";
          resource = "notification";
          resource_id = r.path_id;
          metadata = some (
              Json.obj (Fields.field "deliveryCount" (Json.number (pos (length rows))) Fields.end));
        })
        w,
    answered 200 rows,
  )

  -- The function `deliveries` that both routes share.
  unfoldable pub delivery_log : String → Entry → World → World × Reply (List Delivery)
  unfolding record_audit
  delivery_log tenant_id actor w =
      if r.path_id == ""
      then (w, refused 400 "Notification id is required.")
      else viewed actor (list_for_notification up tenant_id r.path_id w.deliveries) w

  unfoldable pub deliveries_route : World → World × Reply (List Delivery)
  unfolding delivery_log
  deliveries_route w =
      let tenant_id = r.query "tenantId" in
      if tenant_id == ""
      then (w, refused 400 "tenantId is required.")
      else delivery_log tenant_id (service_actor tenant_id) w

  unfoldable pub admin_deliveries : Option UserContext → World → World × Reply (List Delivery)
  unfolding delivery_log
  admin_deliveries none w = (w, refused 401 auth_required)
  admin_deliveries (some u) w = delivery_log u.tenant_id (user_actor u) w

abbrev pub known_statuses : List String
known_statuses = "pending" ∷ "processing" ∷ "sent" ∷ "retrying" ∷ "failed" ∷ "skipped" ∷ []

-- 7 days
abbrev pub default_by_status_window : ℕ
default_by_status_window = 7 * 24 * 3600 * 1000000000

abbrev positive_or : ℕ → Option ℤ → ℕ
positive_or default (some (pos (suc n))) = suc n
positive_or default _ = default

-- The limit of the query: 50 unless a positive number is given, and never above the maximum.
unfoldable pub status_limit : String → ℕ
unfolding parse_int64
status_limit v =
    let limit = if v == "" then 50 else positive_or 50 (parse_int64 v) in
    if ltb max_list_by_status_limit limit then max_list_by_status_limit else limit

module _ (net : Net) (parse_time : ParseTime) (clock : ℕ) (up : Bool) (r : Request) where
  abbrev pub status_of : String
  status_of = if r.query "status" == "" then "failed" else r.query "status"

  abbrev listed_by : Entry → Result (List Delivery) → World → World × Reply (List Delivery × String)
  listed_by actor (err e) w = (w, refused 500 "Failed to load deliveries.")
  listed_by actor (ok rows) w = (
    record_audit net r
        (record actor {
          action = "delivery_log.viewed";
          resource = "delivery";
          metadata = some (
              Json.obj (
                Fields.field "deliveryCount" (Json.number (pos (length rows)))
                  (Fields.field "status" (Json.string status_of) Fields.end)));
        })
        w,
    answered 200 (rows, status_of),
  )

  abbrev listed_since : String → Entry → Option ℕ → World → World × Reply (List Delivery × String)
  listed_since tenant_id actor none w = (w, refused 400 "since must be an RFC 3339 timestamp.")
  listed_since tenant_id actor (some since) w =
      listed_by actor
        (list_by_status up tenant_id status_of since (pos (status_limit (r.query "limit")))
          w.deliveries)
        w

  -- The function `deliveriesByStatus` that both routes share; a time before 1970 counts as 1970.
  unfoldable pub by_status : String → Entry → World → World × Reply (List Delivery × String)
  unfolding record_audit status_limit
  by_status tenant_id actor w =
      let v = r.query "since" in
      let since = if v == "" then some (clock - default_by_status_window) else parse_time v in
      if not (contains status_of known_statuses)
      then (w, refused 400 "Unknown delivery status.")
      else listed_since tenant_id actor since w

  unfoldable pub deliveries_by_status : World → World × Reply (List Delivery × String)
  unfolding by_status
  deliveries_by_status w =
      let tenant_id = r.query "tenantId" in
      if tenant_id == ""
      then (w, refused 400 "tenantId is required.")
      else by_status tenant_id (service_actor tenant_id) w

  unfoldable pub admin_by_status :
      Option UserContext → World → World × Reply (List Delivery × String)
  unfolding by_status
  admin_by_status none w = (w, refused 401 auth_required)
  admin_by_status (some u) w = by_status u.tenant_id (user_actor u) w

-- `parseTimeParam`: no time, or one, or an error.
unfoldable pub parse_time_param : ParseTime → String → Option (Option ℕ)
parse_time_param parse_time raw =
    if raw == "" then some none else elim (parse_time raw) [ none ↦ none | some t ↦ some (some t) ]

-- The flags say whether the store's count and its query succeed.
module _ (parse_time : ParseTime) (up up' : Bool) (r : Request) where
  abbrev pub paged : ℕ × ℕ → Result (List Entry × ℕ) → Reply (List Entry × Pagination)
  paged params (err e) = refused 500 "Failed to load audit log."
  paged params (ok found) = answered 200 (found.0, new_pagination params.0 params.1 found.1)

  unfoldable pub filter_of : ℕ × ℕ → Option ℕ → Option ℕ → Filter
  unfolding page_offset
  filter_of params from until = record {
    action = r.query "action";
    actor_user_id = r.query "actorUserId";
    resource = r.query "resource";
    resource_id = r.query "resourceId";
    from = from;
    until = until;
    limit = pos params.1;
    offset = page_offset params.0 params.1;
  }

  abbrev pub with_times :
      String
      → List EntryRow
      → Option (Option ℕ)
      → Option (Option ℕ)
      → Reply (List Entry × Pagination)
  with_times tenant_id trail none until = refused 400 "from must be an RFC 3339 timestamp."
  with_times tenant_id trail (some from) none = refused 400 "to must be an RFC 3339 timestamp."
  with_times tenant_id trail (some from) (some until) =
      let params = parse_page_params r.query Audit.default_limit Audit.max_limit in
      paged params (Audit.list up up' tenant_id (filter_of params from until) trail)

  -- The function `list` that both routes share.
  unfoldable pub audit_log : String → List EntryRow → Reply (List Entry × Pagination)
  unfolding parse_time_param filter_of parse_page_params new_pagination
  audit_log tenant_id trail =
      with_times tenant_id trail (parse_time_param parse_time (r.query "from"))
        (parse_time_param parse_time (r.query "to"))

  unfoldable pub admin_audit_log :
      Option UserContext → List EntryRow → Reply (List Entry × Pagination)
  unfolding audit_log
  admin_audit_log none trail = refused 401 auth_required
  admin_audit_log (some u) trail = audit_log u.tenant_id trail

  unfoldable pub internal_audit_log : List EntryRow → Reply (List Entry × Pagination)
  unfolding audit_log
  internal_audit_log trail =
      if r.query "tenantId" == ""
      then refused 400 "tenantId is required."
      else audit_log (r.query "tenantId") trail
