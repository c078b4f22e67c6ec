-- ===== src/Notifications/Feed.antt =====
-- Whose notifications the feed shows and the read marks touch.
use mathlib.Core.Path.{subst, fun_ext}
use native.Mathlib.Nat.{le_trans}
use stonesuite_notify.Base.{
  or_empty, column_is, ℕ, ◌≤◌, ◌≡◌, refl, ap, ◌⊎◌, inl, inr, String, Bool, true, false, Option,
  none, some, List, [], ◌∷◌, arith, Bool-cases, update, any, contains, All, All-map, All-take,
  All-drop, All-sort_by, All-select_self, length, length-take-le, length-map, ok, err, ok-injective,
  eq_iff, Changed, update-Changed, All-of, All-impl, All-update_none, any-false, All-false_of_any,
  select-none, eq_refl,
}
use stonesuite_notify.Base.Int.{ℤ}
use stonesuite_notify.Notifications.{
  NotificationRow, Notification, scan_notification, is_unread, is_nil, in_feed, newer,
  non_nil_resources, normalize_paging, normal_limit, list_for_user, count_for_user,
  counts_as_unread, unread_count, is_markable, read_now, mark_read, is_markable_all, mark_all_read,
  err_not_found, max_page_size,
}

-- What a notification in a user's feed satisfies.
pub record IsShown (tenant_id user : String) (allowed : List String) (n : Notification)
    : Type 0 where
  pub tenant : n.tenant_id ≡ tenant_id
  pub recipient : n.recipient_user_id ≡ user
  pub visible : n.visible_in_app ≡ true
  pub readable : (allowed ≡ []) ⊎ (contains n.resource allowed ≡ true)

is_nil-eq : (rs : List String) → is_nil rs ≡ true → rs ≡ []
is_nil-eq [] h = refl
is_nil-eq (r ∷ rs) h = cc

column_is-or_empty :
    (o : Option String) (user : String) → column_is o user ≡ true → or_empty o ≡ user
column_is-or_empty none user h = cc
column_is-or_empty (some u) user h = (eq_iff u user).0 h

in_feed-IsShown :
    (tenant_id user : String) (allowed : List String) (unread_only : Bool) (r : NotificationRow)
    → in_feed tenant_id user allowed unread_only r ≡ true
    → IsShown tenant_id user allowed (scan_notification r)
unfolding in_feed scan_notification
in_feed-IsShown tenant_id user allowed unread_only r h = record {
  tenant = (eq_iff r.tenant_id tenant_id).0 (ground arith);
  recipient = column_is-or_empty r.recipient_user_id user (ground arith);
  visible = ground arith;
  readable = elim (Bool-cases (is_nil allowed)) [
    | inl e ↦ inl (is_nil-eq allowed e)
    | inr e ↦ inr (ground arith)
  ];
}

normal_limit-le : (limit : ℤ) → normal_limit limit ≤ max_page_size
unfolding normal_limit
normal_limit-le limit = ground arith

-- The feed shows a user only their own visible notifications, of the resources that they may see
-- (an empty or nil list allows all), and at most 100 of them whatever the limit asked for.
pub list_for_user-IsShown :
    (tenant_id user : String) (allowed : Option (List String)) (unread_only : Bool)
    (limit offset : ℤ) (table : List NotificationRow) {ns : List Notification}
    → list_for_user true tenant_id user allowed unread_only limit offset table ≡ ok ns
    → All (IsShown tenant_id user (non_nil_resources allowed)) ns × (length ns ≤ max_page_size)
unfolding list_for_user
list_for_user-IsShown tenant_id user allowed unread_only limit offset table {ns} e =
    subst
      (λ xs.
        All (IsShown tenant_id user (non_nil_resources allowed)) xs × (length xs ≤ max_page_size))
      (ok-injective _ ns e)
      (
        All-map (IsShown tenant_id user rs) scan_notification _ (
            All-take _ size _ (
              All-drop _ start _ (
                All-sort_by newer (λ r. IsShown tenant_id user rs (scan_notification r)) _
                  (All-select_self (λ r. IsShown tenant_id user rs (scan_notification r))
                    (in_feed tenant_id user rs unread_only)
                    (in_feed-IsShown tenant_id user rs unread_only) table)))),
        rw length-map (le_trans (length-take-le size _) (normal_limit-le limit)),
      )
  where
    rs : List String
    rs = non_nil_resources allowed

    size : ℕ
    size = (normalize_paging limit offset).0

    start : ℕ
    start = (normalize_paging limit offset).1

same_rows :
    (tenant_id user : String) (allowed : List String) (r : NotificationRow)
    → in_feed tenant_id user allowed true r ≡ counts_as_unread tenant_id user allowed r
unfolding in_feed counts_as_unread
same_rows tenant_id user allowed r = ground arith

column_is-some : (o : Option String) (user : String) → column_is o user ≡ true → o ≡ some user
column_is-some none user h = cc
column_is-some (some u) user h = ap some ((eq_iff u user).0 h)

is_unread-none : (o : Option ℕ) → is_unread o ≡ true → o ≡ none
is_unread-none none h = refl
is_unread-none (some n) h = cc

marked-none :
    (tenant_id user id : String) (now : ℕ) (table : List NotificationRow)
    → All
        (λ r. is_markable tenant_id user id r ≡ false)
        (update (is_markable tenant_id user id) (read_now now) table)
unfolding is_markable
marked-none tenant_id user id now table =
    All-update_none _ _ (read_now now) (λ r h. h) (λ r. ground arith) table

not_counted :
    (tenant_id user : String) (allowed : List String) (r : NotificationRow)
    → is_markable_all tenant_id user allowed r ≡ false
    → counts_as_unread tenant_id user allowed r ≡ false
unfolding is_markable_all counts_as_unread
not_counted tenant_id user allowed r h = ground arith

read_not_counted :
    (tenant_id user : String) (allowed : List String) (now : ℕ) (r : NotificationRow)
    → counts_as_unread tenant_id user allowed (read_now now r) ≡ false
unfolding counts_as_unread
read_not_counted tenant_id user allowed now r = ground arith

markable_all-own :
    (tenant_id user : String) (allowed : List String) (r : NotificationRow)
    → is_markable_all tenant_id user allowed r ≡ true
    → (r.tenant_id ≡ tenant_id) × (r.recipient_user_id ≡ some user) × (r.read_at ≡ none)
unfolding is_markable_all
markable_all-own tenant_id user allowed r h = (
  (eq_iff r.tenant_id tenant_id).0 (ground arith),
  column_is-some r.recipient_user_id user (ground arith),
  is_unread-none r.read_at (ground arith),
)

-- The badge of the bell counts what the unread-only feed would list.
pub unread_count-eq-count_for_user :
    (tenant_id user : String) (allowed : Option (List String)) (table : List NotificationRow)
    {n : ℕ}
    → unread_count true tenant_id user allowed table ≡ ok n
    → count_for_user true tenant_id user allowed true table ≡ ok n
unfolding unread_count count_for_user
unread_count-eq-count_for_user tenant_id user allowed table h =
    rw (fun_ext (same_rows tenant_id user (non_nil_resources allowed))) h

-- What a row marked read by id is: the caller's own, with that id, and unread.
pub record IsOwnUnread (tenant_id user id : String) (r : NotificationRow) : Type 0 where
  pub same_id : r.id ≡ id
  pub tenant : r.tenant_id ≡ tenant_id
  pub recipient : r.recipient_user_id ≡ some user
  pub unread : r.read_at ≡ none

is_markable-IsOwnUnread :
    (tenant_id user id : String) (r : NotificationRow)
    → is_markable tenant_id user id r ≡ true
    → IsOwnUnread tenant_id user id r
unfolding is_markable
is_markable-IsOwnUnread tenant_id user id r h = record {
  same_id = (eq_iff r.id id).0 (ground arith);
  tenant = (eq_iff r.tenant_id tenant_id).0 (ground arith);
  recipient = column_is-some r.recipient_user_id user (ground arith);
  unread = is_unread-none r.read_at (ground arith);
}

not_markable :
    (tenant_id user id : String) (r : NotificationRow)
    → is_markable tenant_id user id r ≡ false
    → ¬ IsOwnUnread tenant_id user id r
unfolding is_markable
not_markable tenant_id user id r h own = ground (
  arith,
  own.same_id,
  own.tenant,
  own.recipient,
  own.unread,
  eq_iff r.id id,
  eq_iff r.tenant_id tenant_id,
  eq_refl user,
)

-- MarkRead answers "not found" exactly when the caller has no unread notification with the id,
-- and then changes nothing. Otherwise it sets the read time of such rows and of no other row, and
-- a second MarkRead of the same id answers "not found".
pub mark_read_lem :
    (tenant_id user id : String) (now now' : ℕ) (table : List NotificationRow)
    → ((mark_read true tenant_id user id now table ≡ err err_not_found)
        × All (λ r. ¬ IsOwnUnread tenant_id user id r) table)
      ⊎ ((marked : List NotificationRow) × (mark_read true tenant_id user id now table ≡ ok marked)
          × Changed (IsOwnUnread tenant_id user id) (read_now now) table marked
          × (mark_read true tenant_id user id now' marked ≡ err err_not_found))
unfolding mark_read
mark_read_lem tenant_id user id now now' table =
    elim (Bool-cases (any (is_markable tenant_id user id) table)) [
      | inl e ↦ inr (
        update (is_markable tenant_id user id) (read_now now) table,
        rw e,
        update-Changed _ _ _ table (All-of _ (is_markable-IsOwnUnread tenant_id user id) table),
        rw (any-false (is_markable tenant_id user id) _ (marked-none tenant_id user id now table))
            refl,
      )
      | inr e ↦
          inl
            (rw e, All-impl _ _ (not_markable tenant_id user id) table (All-false_of_any _ table e))
    ]

-- After MarkAllRead the unread count of the same user, over the same resources, is 0, and only
-- unread rows of that user were changed.
pub unread_count-mark_all_read :
    (tenant_id user : String) (allowed : Option (List String)) (now : ℕ)
    (table : List NotificationRow)
    → (marked : List NotificationRow) × (mark_all_read true tenant_id user allowed now table
        ≡ ok marked)
      × (unread_count true tenant_id user allowed marked ≡ ok 0)
      × Changed
          (λ r. (r.tenant_id ≡ tenant_id) × (r.recipient_user_id ≡ some user) × (r.read_at ≡ none))
          (read_now now)
          table
          marked
unfolding mark_all_read unread_count
unread_count-mark_all_read tenant_id user allowed now table =
    let rs = non_nil_resources allowed in
    (
      update (is_markable_all tenant_id user rs) (read_now now) table,
      refl,
      ap (λ (xs : List NotificationRow). ok (length xs))
          (select-none (counts_as_unread tenant_id user rs) _ (
            All-update_none (counts_as_unread tenant_id user rs) (is_markable_all tenant_id user rs)
              (read_now now) (not_counted tenant_id user rs)
              (read_not_counted tenant_id user rs now) table)),
      update-Changed _ _ _ table (All-of _ (markable_all-own tenant_id user rs) table),
    )
