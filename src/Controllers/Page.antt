-- ===== src/Controllers/Page.antt =====
-- controllers/audit.go: page numbers, and what a client is told of further pages.
pub mod Slices
use stonesuite_notify.Base.{
  ℕ, suc, ◌+◌, ◌-◌, ◌*◌, ◌/◌, String, Bool, Option, none, some, ltb, leb, ◌&&◌, if◌then◌else◌,
}
use stonesuite_notify.Base.Decimal.{parse_int64}
use stonesuite_notify.Base.Int.{ℤ, pos, negsuc, to_int64}

pub record Pagination : Type 0 where
  pub page : ℕ
  pub page_size : ℕ
  pub total : ℕ
  pub total_pages : ℕ
  pub has_more : Bool

abbrev pub pages_of : ℕ → ℕ → ℕ
pages_of total page_size = if ltb 0 page_size then (total + page_size - 1) / page_size else 0

unfoldable pub new_pagination : ℕ → ℕ → ℕ → Pagination
new_pagination page page_size total = record {
  page = page;
  page_size = page_size;
  total = total;
  total_pages = pages_of total page_size;
  has_more = ltb page (pages_of total page_size);
}

abbrev pub page_or : ℕ → Option ℤ → ℕ
page_or default (some (pos n)) = if ltb 0 n then n else default
page_or default _ = default

abbrev pub size_or : ℕ → ℕ → Option ℤ → ℕ
size_or default max (some (pos n)) = if ltb 0 n && leb n max then n else default
size_or default max _ = default

-- The page and its size, from the two parameters of the query.
unfoldable pub parse_page_params : (String → String) → ℕ → ℕ → ℕ × ℕ
unfolding parse_int64
parse_page_params query default_size max_size = (
  page_or 1 (parse_int64 (query "page")),
  size_or default_size max_size (parse_int64 (query "pageSize")),
)

-- `(page - 1) * pageSize`, in an int64
unfoldable pub page_offset : ℕ → ℕ → ℤ
unfolding to_int64
page_offset page page_size = to_int64 ((page - 1) * page_size)
