-- ===== src/Notifications/Paging.antt =====
-- The pages of the feed, as the "view all" screen asks for them.
use mathlib.Core.List.{map-append}
use stonesuite_notify.Base.{
  ℕ, zero, suc, ◌+◌, ◌*◌, ◌≤◌, ◌<◌, ◌≡◌, sym, ap, ◌∙◌, String, Bool, true, Option, List, [], ◌++◌,
  map, arith, take, drop, length, length-map, length-sort_by, take-append-drop, take_all, select,
  sort_by, ok, err, ok-injective, Result,
}
use stonesuite_notify.Base.Int.{pos}
use stonesuite_notify.Notifications.{
  NotificationRow, Notification, scan_notification, in_feed, newer, non_nil_resources,
  normalize_paging, normal_limit, list_for_user, count_for_user, max_page_size,
}

next_page_of : (size k : ℕ) → k * size + size ≡ suc k * size
next_page_of size k = grind arith

normal_limit_id_of : (size : ℕ) → 0 < size → size ≤ max_page_size → normal_limit (pos size) ≡ size
unfolding normal_limit
normal_limit_id_of size low high = ground arith

module _ (tenant_id user : String) (allowed : Option (List String)) (unread_only : Bool)
    (table : List NotificationRow) (size : ℕ) where
  -- The rows of an answer; an error has none.
  abbrev rows_of : Result (List Notification) → List Notification
  rows_of (ok ns) = ns
  rows_of (err _) = []

  -- The notifications of the first `k` pages of `size`, in the order in which they are shown.
  pub first_pages : ℕ → List Notification
  first_pages zero = []
  first_pages (suc k) =
      first_pages k
      ++ rows_of
          (list_for_user true tenant_id user allowed unread_only (pos size) (pos (k * size)) table)

  abbrev feed : List NotificationRow
  feed =
      sort_by newer (select (in_feed tenant_id user (non_nil_resources allowed) unread_only) table)

  page-eq :
      (k : ℕ)
      → 0 < size
      → size ≤ max_page_size
      → rows_of
          (list_for_user true tenant_id user allowed unread_only (pos size) (pos (k * size)) table)
        ≡ map scan_notification (take size (drop (k * size) feed))
  unfolding list_for_user normalize_paging
  page-eq k low high =
      ap (λ n. map scan_notification (take n (drop (k * size) feed)))
        (normal_limit_id_of size low high)

  first_pages-eq :
      (k : ℕ)
      → 0 < size
      → size ≤ max_page_size
      → first_pages k ≡ map scan_notification (take (k * size) feed)
  unfolding first_pages
  first_pages-eq zero low high =
      ap (λ n. map scan_notification (take n feed)) (let e : 0 ≡ 0 * size = omega arith in e)
  first_pages-eq (suc k) low high =
      rw (first_pages-eq k low high, page-eq k low high)
        (sym
            (map-append scan_notification (take (k * size) feed) (take size (drop (k * size) feed)))
          ∙ ap (map scan_notification)
              (take-append-drop (k * size) size feed ∙ ap (λ n. take n feed) (next_page_of size k)))

  -- Once the pages reach the total that CountForUser reports, together they hold every row of the
  -- feed exactly once, in order: as many as that total.
  pub first_pages_complete :
      (k total : ℕ)
      → 0 < size
      → size ≤ max_page_size
      → count_for_user true tenant_id user allowed unread_only table ≡ ok total
      → total ≤ k * size
      → (first_pages k ≡ map scan_notification feed) × (length (first_pages k) ≡ total)
  unfolding count_for_user
  first_pages_complete k total low high e reached =
      let rows : List NotificationRow =
        select (in_feed tenant_id user (non_nil_resources allowed) unread_only) table in
      let counted : length rows ≡ total = ok-injective (length rows) total e in
      let sorted : length feed ≡ total = length-sort_by newer rows ∙ counted in
      let whole : first_pages k ≡ map scan_notification feed =
        first_pages-eq k low high
        ∙ ap (map scan_notification) (take_all (k * size) feed (omega arith)) in
      (whole, ap length whole ∙ length-map scan_notification feed ∙ sorted)
