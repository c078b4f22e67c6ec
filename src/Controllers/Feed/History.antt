-- ===== src/Controllers/Feed/History.antt =====
-- The pages of a user's history.
use stonesuite_notify.Base.{
  ℕ, ◌-◌, ◌*◌, ◌^◌, ◌≤◌, ◌<◌, ◌≡◌, refl, sym, ap, ◌∙◌, ◌↔◌, Bool, true, ◌==◌, some, List, map, take,
  drop, select, sort_by, length-sort_by, length, arith, ok,
}
use mathlib.Core.Path.{subst}
use stonesuite_notify.Base.Int.{ℤ, pos, negsuc, to_int64}
use stonesuite_notify.Middleware.{UserContext}
use stonesuite_notify.Notifications.{
  NotificationRow, Notification, list_for_user, count_for_user, in_feed, newer, scan_notification,
  normalize_paging, default_page_size, max_page_size,
}
use stonesuite_notify.Controllers.{Reply, answered, Request, World}
use stonesuite_notify.Controllers.Page.{Pagination, new_pagination, parse_page_params, page_offset}
use stonesuite_notify.Controllers.Page.Slices.{parse_page_params-in_range, has_more_iff}
use stonesuite_notify.Controllers.Feed.{history, page_answer}

-- Everything that a user may see of the feed, the newest first.
abbrev pub feed_of : UserContext → Bool → World → List NotificationRow
feed_of u unread_only w =
    sort_by newer
      (select (in_feed u.tenant_id u.user_id u.accessible_resources unread_only) w.notifications)

-- The offset of a page, if it fits, is what precedes the page.
page_offset-pos : (p s : ℕ) → (p - 1) * s < 2 ^ 63 → page_offset p s ≡ pos ((p - 1) * s)
unfolding page_offset to_int64
page_offset-pos p s h = ground (arith, h)

-- An offset that does not fit is negative, up to twice the range.
page_offset-neg :
    (p s : ℕ) → 2 ^ 63 ≤ (p - 1) * s → (p - 1) * s < 2 ^ 64 → (n : ℕ) × (page_offset p s ≡ negsuc n)
unfolding page_offset to_int64
page_offset-neg p s h k = (2 ^ 64 - 1 - (p - 1) * s, ground (arith, h, k))

normalize_paging-pos :
    (s n : ℕ) → 0 < s → s ≤ max_page_size → normalize_paging (pos s) (pos n) ≡ (s, n)
unfolding normalize_paging
normalize_paging-pos s n h k = ground (arith, h, k)

normalize_paging-neg :
    (s n : ℕ) → 0 < s → s ≤ max_page_size → normalize_paging (pos s) (negsuc n) ≡ (s, 0)
unfolding normalize_paging
normalize_paging-neg s n h k = ground (arith, h, k)

module _ (u : UserContext) (r : Request) (w : World) (p s : ℕ)
    (params : parse_page_params r.query default_page_size max_page_size ≡ (p, s)) where
  abbrev only_unread : Bool
  only_unread = r.query "unreadOnly" == "true"

  abbrev pub page_from : ℕ → Reply (List Notification × Pagination)
  page_from start = answered 200 (
    map scan_notification (take s (drop start (feed_of u only_unread w))),
    new_pagination p s (length (feed_of u only_unread w)),
  )

  abbrev history_at : ℕ × ℕ → Reply (List Notification × Pagination)
  history_at q =
      page_answer q
        (count_for_user true u.tenant_id u.user_id (some u.accessible_resources) only_unread
          w.notifications)
        (list_for_user true u.tenant_id u.user_id (some u.accessible_resources) only_unread
          (pos q.1) (page_offset q.0 q.1) w.notifications)

  history_lem : history true true (some u) r w ≡ history_at (p, s)
  history_lem = whole ∙ ap history_at params
    where
      whole :
          history true true (some u) r w
          ≡ history_at (parse_page_params r.query default_page_size max_page_size)
      whole = unfold history in refl

  rows_at :
      (limit offset : ℤ)
      → list_for_user true u.tenant_id u.user_id
          (some u.accessible_resources)
          only_unread
          limit
          offset
          w.notifications
        ≡ ok (
            map scan_notification (
              take
                (normalize_paging limit offset).0
                (drop (normalize_paging limit offset).1 (feed_of u only_unread w))))
  unfolding list_for_user
  rows_at limit offset = refl

  counted_all :
      count_for_user true u.tenant_id u.user_id
        (some u.accessible_resources)
        only_unread
        w.notifications
      ≡ ok (length (feed_of u only_unread w))
  unfolding count_for_user
  counted_all = ap ok (sym (length-sort_by newer _))

  answer_at :
      (start : ℕ)
      → normalize_paging (pos s) (page_offset p s) ≡ (s, start)
      → history_at (p, s) ≡ page_from start
  answer_at start e = rw (rows_at (pos s) (page_offset p s), counted_all, e) refl

  in_range : (0 < p) × (0 < s) × (s ≤ max_page_size)
  in_range =
      let (a, b, c) =
        parse_page_params-in_range r.query default_page_size max_page_size (omega arith)
          (omega arith) in
      (
        subst (λ (q : ℕ × ℕ). 0 < q.0) params a,
        subst (λ (q : ℕ × ℕ). 0 < q.1) params b,
        subst (λ (q : ℕ × ℕ). q.1 ≤ max_page_size) params c,
      )

  -- With the store answering, the history of a user answers with the page that was asked for: its
  -- slice of all that the user may see, the newest first, and the number of rows in all; and it
  -- tells of a further page exactly when rows follow the page. This is for pages whose offset fits
  -- into 63 bits.
  pub history-page :
      (p - 1) * s < 2 ^ 63
      → (history true true (some u) r w ≡ page_from ((p - 1) * s))
        × (((new_pagination p s (length (feed_of u only_unread w))).has_more ≡ true)
            ↔ (p * s < length (feed_of u only_unread w)))
  history-page fits =
      let (a, b, c) = in_range in
      (
        history_lem
            ∙ answer_at ((p - 1) * s)
                (rw (page_offset-pos p s fits) (normalize_paging-pos s ((p - 1) * s) b c)),
        has_more_iff p s (length (feed_of u only_unread w)) b,
      )

  -- A page whose offset is between 2^63 and 2^64 is answered with the rows of the first page: the
  -- product is negative, and a negative offset counts as 0.
  pub history-wrapped :
      2 ^ 63 ≤ (p - 1) * s → (p - 1) * s < 2 ^ 64 → history true true (some u) r w ≡ page_from 0
  history-wrapped large fits =
      let (a, b, c) = in_range in
      let (n, e) = page_offset-neg p s large fits in
      history_lem ∙ answer_at 0 (rw e (normalize_paging-neg s n b c))
