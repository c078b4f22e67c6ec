-- ===== src/Notifications.antt =====
-- notifications/types.go, and the operations of notifications/store.go on the notifications
-- table: the feed of each user. Times are nanoseconds; `up` tells whether the database executes
-- the statement; `now` is its NOW().
pub mod Attachments
pub mod Feed
pub mod Paging
use Prim.Native.String
use Prim.Native.Nat.{Ordering}
use stonesuite_notify.Base.{
  ℕ, String, Bool, true, false, not, ◌&&◌, ◌||◌, ◌==◌, Option, none, some, List, [], ◌∷◌, ◌++◌, map,
  leb, ltb, nat_eq, if◌then◌else◌, select, update, any, find, sort_by, take, drop, length, contains,
  or_empty, null_if_empty, column_is, Result, ok, err,
}
use stonesuite_notify.Base.Int.{ℤ, pos, negsuc}

-- A row of the notifications table; a nullable column is an `Option`.
pub record NotificationRow : Type 0 where
  pub id : String
  pub tenant_id : String
  pub recipient_user_id : Option String
  pub recipient_email : String
  pub actor_user_id : Option String
  pub event_type : String
  pub resource : String
  pub resource_id : String
  pub title : String
  pub body : String
  pub link : String
  pub status_link : String
  pub status_resource : String
  pub visible_in_app : Bool
  pub read_at : Option ℕ
  pub created_at : ℕ

pub record Notification : Type 0 where
  pub id : String
  pub tenant_id : String
  pub recipient_user_id : String
  pub recipient_email : String
  pub actor_user_id : String
  pub event_type : String
  pub resource : String
  pub resource_id : String
  pub title : String
  pub body : String
  pub link : String
  pub visible_in_app : Bool
  pub read_at : Option ℕ
  pub created_at : ℕ

pub record CreateInput : Type 0 where
  pub tenant_id : String
  pub recipient_user_id : String
  pub recipient_email : String
  pub actor_user_id : String
  pub event_type : String
  pub resource : String
  pub resource_id : String
  pub title : String
  pub body : String
  pub link : String
  pub status_link : String
  pub status_resource : String
  pub visible_in_app : Bool

-- `Validate`: the field of the ValidationError, or none.
unfoldable pub validate : CreateInput → Option String
validate in_ =
    if in_.tenant_id == ""
    then some "tenantId"
    else if in_.recipient_user_id == "" && in_.recipient_email == ""
    then some "recipientUserId or recipientEmail"
    else if in_.event_type == ""
    then some "eventType"
    else if in_.resource == ""
    then some "resource"
    else if in_.resource_id == ""
    then some "resourceId"
    else if in_.title == ""
    then some "title"
    else none

abbrev pub default_page_size : ℕ
default_page_size = 20

abbrev pub max_page_size : ℕ
max_page_size = 100

normal_limit : ℤ → ℕ
normal_limit (pos n) = if leb n 0 || ltb max_page_size n then default_page_size else n
normal_limit (negsuc n) = default_page_size

normal_offset : ℤ → ℕ
normal_offset (pos n) = n
normal_offset (negsuc n) = 0

unfoldable pub normalize_paging : ℤ → ℤ → ℕ × ℕ
unfolding normal_limit normal_offset
normalize_paging limit offset = (normal_limit limit, normal_offset offset)

unfoldable pub scan_notification : NotificationRow → Notification
scan_notification r = record {
  id = r.id;
  tenant_id = r.tenant_id;
  recipient_user_id = or_empty r.recipient_user_id;
  recipient_email = r.recipient_email;
  actor_user_id = or_empty r.actor_user_id;
  event_type = r.event_type;
  resource = r.resource;
  resource_id = r.resource_id;
  title = r.title;
  body = r.body;
  link = r.link;
  visible_in_app = r.visible_in_app;
  read_at = r.read_at;
  created_at = r.created_at;
}

-- The row that `Create` inserts; `id` is the generated UUID.
unfoldable pub new_notification : String → ℕ → CreateInput → NotificationRow
new_notification id now in_ = record {
  id = id;
  tenant_id = in_.tenant_id;
  recipient_user_id = null_if_empty in_.recipient_user_id;
  recipient_email = in_.recipient_email;
  actor_user_id = null_if_empty in_.actor_user_id;
  event_type = in_.event_type;
  resource = in_.resource;
  resource_id = in_.resource_id;
  title = in_.title;
  body = in_.body;
  link = in_.link;
  status_link = in_.status_link;
  status_resource = in_.status_resource;
  visible_in_app = in_.visible_in_app;
  read_at = none;
  created_at = now;
}

unfoldable pub create :
    Bool
    → String
    → ℕ
    → CreateInput
    → List NotificationRow
    → Result (List NotificationRow × Notification)
unfolding new_notification scan_notification
create up id now in_ table =
    let row = new_notification id now in_ in
    if up then ok (table ++ row ∷ [], scan_notification row) else err "create notification"

abbrev pub err_not_found : String
err_not_found = "notification not found"

found : Option NotificationRow → Result Notification
found none = err err_not_found
found (some r) = ok (scan_notification r)

unfoldable pub get : Bool → String → String → List NotificationRow → Result Notification
unfolding found scan_notification
get up tenant_id id table =
    if up
    then found (find (λ r. r.id == id && r.tenant_id == tenant_id) table)
    else err "get notification"

-- A nil slice, which pgx binds as NULL, becomes an empty one.
unfoldable pub non_nil_resources : Option (List String) → List String
non_nil_resources none = []
non_nil_resources (some rs) = rs

abbrev pub is_unread : Option ℕ → Bool
is_unread none = true
is_unread (some _) = false

abbrev pub is_nil : List String → Bool
is_nil [] = true
is_nil (_ ∷ _) = false

-- cardinality($3) = 0 OR resource = ANY($3)
abbrev pub may_see : List String → NotificationRow → Bool
may_see allowed r = is_nil allowed || contains r.resource allowed

abbrev pub is_theirs : String → String → NotificationRow → Bool
is_theirs tenant_id user r = r.tenant_id == tenant_id && column_is r.recipient_user_id user

-- The WHERE clause of `ListForUser` and `CountForUser`.
unfoldable pub in_feed : String → String → List String → Bool → NotificationRow → Bool
in_feed tenant_id user allowed unread_only r =
    is_theirs tenant_id user r
    && r.visible_in_app
    && may_see allowed r
    && (not unread_only || is_unread r.read_at)

abbrev is_greater : Ordering → Bool
is_greater Ordering.gt = true
is_greater _ = false

-- ORDER BY created_at DESC, id DESC; the order of UUIDs is that of their texts.
unfoldable pub newer : NotificationRow → NotificationRow → Bool
newer a b =
    ltb b.created_at a.created_at
    || (nat_eq a.created_at b.created_at && is_greater (String.compare a.id b.id))

unfoldable pub list_for_user :
    Bool
    → String
    → String
    → Option (List String)
    → Bool
    → ℤ
    → ℤ
    → List NotificationRow
    → Result (List Notification)
unfolding non_nil_resources normalize_paging in_feed newer scan_notification
list_for_user up tenant_id user allowed unread_only limit offset table =
    let (size, start) = normalize_paging limit offset in
    let feed = select (in_feed tenant_id user (non_nil_resources allowed) unread_only) table in
    if up
    then ok (map scan_notification (take size (drop start (sort_by newer feed))))
    else err "list notifications"

unfoldable pub count_for_user :
    Bool → String → String → Option (List String) → Bool → List NotificationRow → Result ℕ
unfolding non_nil_resources in_feed
count_for_user up tenant_id user allowed unread_only table =
    if up
    then ok (length (select (in_feed tenant_id user (non_nil_resources allowed) unread_only) table))
    else err "count notifications"

-- The WHERE clause of `UnreadCount`.
unfoldable pub counts_as_unread : String → String → List String → NotificationRow → Bool
counts_as_unread tenant_id user allowed r =
    is_theirs tenant_id user r && r.visible_in_app && is_unread r.read_at && may_see allowed r

unfoldable pub unread_count :
    Bool → String → String → Option (List String) → List NotificationRow → Result ℕ
unfolding non_nil_resources counts_as_unread
unread_count up tenant_id user allowed table =
    if up
    then ok (length (select (counts_as_unread tenant_id user (non_nil_resources allowed)) table))
    else err "count unread notifications"

-- The WHERE clause of `MarkRead`.
unfoldable pub is_markable : String → String → String → NotificationRow → Bool
is_markable tenant_id user id r = r.id == id && is_theirs tenant_id user r && is_unread r.read_at

abbrev pub read_now : ℕ → NotificationRow → NotificationRow
read_now now r = record r { read_at = some now }

unfoldable pub mark_read :
    Bool → String → String → String → ℕ → List NotificationRow → Result (List NotificationRow)
unfolding is_markable
mark_read up tenant_id user id now table =
    if not up
    then err "mark notification read"
    else if any (is_markable tenant_id user id) table
    then ok (update (is_markable tenant_id user id) (read_now now) table)
    else err err_not_found

-- The WHERE clause of `MarkAllRead`.
unfoldable pub is_markable_all : String → String → List String → NotificationRow → Bool
is_markable_all tenant_id user allowed r =
    is_theirs tenant_id user r && is_unread r.read_at && may_see allowed r

unfoldable pub mark_all_read :
    Bool
    → String
    → String
    → Option (List String)
    → ℕ
    → List NotificationRow
    → Result (List NotificationRow)
unfolding non_nil_resources is_markable_all
mark_all_read up tenant_id user allowed now table =
    if up
    then ok
        (update (is_markable_all tenant_id user (non_nil_resources allowed)) (read_now now) table)
    else err "mark all notifications read"
