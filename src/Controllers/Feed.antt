-- ===== src/Controllers/Feed.antt =====
-- controllers/notifications.go: the bell of a signed-in user. The user is the one of the request's
-- context; the flags say whether the store's statements succeed.
pub mod History
use stonesuite_notify.Base.{
  ℕ, String, Bool, true, false, ◌==◌, Option, none, some, List, [], ◌∷◌, if◌then◌else◌, Result, ok,
  err,
}
use stonesuite_notify.Base.Decimal.{parse_int64}
use stonesuite_notify.Base.Int.{ℤ, pos}
use stonesuite_notify.Audit.{Entry}
use stonesuite_notify.Middleware.{UserContext}
use stonesuite_notify.Notifications.{
  NotificationRow, Notification, unread_count, list_for_user, count_for_user, mark_read,
  mark_all_read, default_page_size, max_page_size, err_not_found,
}
use stonesuite_notify.Controllers.{
  Reply, refused, answered, Request, World, Net, record_audit, no_entry, auth_required,
}
use stonesuite_notify.Controllers.Page.{Pagination, new_pagination, parse_page_params, page_offset}

abbrev counted : Result ℕ → Reply ℕ
counted (ok count) = answered 200 count
counted (err e) = refused 500 "Failed to load notification summary."

unfoldable pub summary : Bool → Option UserContext → World → Reply ℕ
summary up none w = refused 401 auth_required
summary up (some u) w =
    counted (unread_count up u.tenant_id u.user_id (some u.accessible_resources) w.notifications)

abbrev limit_or : Option ℤ → ℤ
limit_or none = pos default_page_size
limit_or (some parsed) = parsed

abbrev limit_of : String → ℤ
limit_of v = if v == "" then pos default_page_size else limit_or (parse_int64 v)

abbrev listed : Result (List Notification) → Reply (List Notification)
listed (ok rows) = answered 200 rows
listed (err e) = refused 500 "Failed to load notifications."

unfoldable pub list : Bool → Option UserContext → Request → World → Reply (List Notification)
unfolding parse_int64
list up none r w = refused 401 auth_required
list up (some u) r w = listed (
    list_for_user up u.tenant_id u.user_id (some u.accessible_resources)
      (r.query "unreadOnly" == "true") (limit_of (r.query "limit")) (pos 0) w.notifications)

abbrev pub page_answer :
    ℕ × ℕ → Result ℕ → Result (List Notification) → Reply (List Notification × Pagination)
page_answer (page, page_size) (err e) rows = refused 500 "Failed to load notifications."
page_answer (page, page_size) (ok total) (err e) = refused 500 "Failed to load notifications."
page_answer (page, page_size) (ok total) (ok rows) =
    answered 200 (rows, new_pagination page page_size total)

unfoldable pub history :
    Bool → Bool → Option UserContext → Request → World → Reply (List Notification × Pagination)
unfolding parse_page_params page_offset new_pagination
history up up' none r w = refused 401 auth_required
history up up' (some u) r w =
    let unread_only = r.query "unreadOnly" == "true" in
    let params = parse_page_params r.query default_page_size max_page_size in
    let total =
      count_for_user up u.tenant_id u.user_id (some u.accessible_resources) unread_only
        w.notifications in
    let rows =
      list_for_user up' u.tenant_id u.user_id (some u.accessible_resources) unread_only
        (pos params.1) (page_offset params.0 params.1) w.notifications in
    page_answer params total rows

module _ (net : Net) (now : ℕ) (r : Request) where
  unfoldable pub read_entry : UserContext → String → String → Entry
  read_entry u action id = record no_entry {
    tenant_id = u.tenant_id;
    actor_user_id = u.user_id;
    actor_type = "user";
    action = action;
    resource = "notification";
    resource_id = id;
  }

  abbrev pub marked : UserContext → World → Result (List NotificationRow) → World × Reply (Unit {0})
  marked u w (ok table) = (
    record_audit net r (read_entry u "notification.read" r.path_id)
        (record w { notifications = table }),
    answered 200 tt,
  )
  marked u w (err e) =
      if e == err_not_found
      then (w, refused 404 "Notification not found.")
      else (w, refused 500 "Failed to mark notification read.")

  unfoldable pub mark_read_route : Bool → Option UserContext → World → World × Reply (Unit {0})
  unfolding read_entry record_audit
  mark_read_route up none w = (w, refused 401 auth_required)
  mark_read_route up (some u) w =
      if r.path_id == ""
      then (w, refused 400 "Notification id is required.")
      else marked u w (mark_read up u.tenant_id u.user_id r.path_id now w.notifications)

  abbrev pub all_marked :
      UserContext → World → Result (List NotificationRow) → World × Reply (Unit {0})
  all_marked u w (ok table) = (
    record_audit net r (read_entry u "notification.read_all" "")
        (record w { notifications = table }),
    answered 200 tt,
  )
  all_marked u w (err e) = (w, refused 500 "Failed to mark notifications read.")

  unfoldable pub mark_all_read_route : Bool → Option UserContext → World → World × Reply (Unit {0})
  unfolding read_entry record_audit
  mark_all_read_route up none w = (w, refused 401 auth_required)
  mark_all_read_route up (some u) w =
      all_marked u w
        (mark_all_read up u.tenant_id u.user_id (some u.accessible_resources) now w.notifications)
