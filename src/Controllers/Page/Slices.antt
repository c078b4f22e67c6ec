-- ===== src/Controllers/Page/Slices.antt =====
-- Pages cut a list without gaps, as far as the offset fits.
use stonesuite_notify.Base.{
  ℕ, ◌+◌, ◌-◌, ◌*◌, ◌/◌, ◌≤◌, ◌<◌, ◌≡◌, ◌↔◌, String, true, Option, none, some, lt→ltb, ltb→lt,
  arith,
}
use stonesuite_notify.Base.Decimal.{parse_int64}
use stonesuite_notify.Base.Int.{ℤ, pos, negsuc}
use stonesuite_notify.Controllers.Page.{new_pagination, page_or, size_or, parse_page_params}

-- A page is a positive number, and its size is between 1 and the maximum.
pub parse_page_params-in_range :
    (query : String → String) (default_size max_size : ℕ)
    → 0 < default_size
    → default_size ≤ max_size
    → (0 < (parse_page_params query default_size max_size).0)
      × (0 < (parse_page_params query default_size max_size).1)
      × ((parse_page_params query default_size max_size).1 ≤ max_size)
unfolding parse_page_params
parse_page_params-in_range query d m h k = (
  page_pos (parse_int64 (query "page")),
  size_pos (parse_int64 (query "pageSize")),
  size_le (parse_int64 (query "pageSize")),
)
  where
    page_pos : (o : Option ℤ) → 0 < page_or 1 o
    page_pos none = omega arith
    page_pos (some (pos n)) = ground arith
    page_pos (some (negsuc n)) = omega arith

    size_pos : (o : Option ℤ) → 0 < size_or d m o
    size_pos none = h
    size_pos (some (pos n)) = ground (arith, h)
    size_pos (some (negsuc n)) = h

    size_le : (o : Option ℤ) → size_or d m o ≤ m
    size_le none = k
    size_le (some (pos n)) = ground (arith, k)
    size_le (some (negsuc n)) = k

pages_of_iff :
    (page page_size total : ℕ)
    → 0 < page_size
    → (page < (total + page_size - 1) / page_size) ↔ (page * page_size < total)
pages_of_iff page page_size total h = (λ k. grind (arith, k), λ k. grind (arith, k))

-- A client is told of a further page exactly when rows follow those of this page.
pub has_more_iff :
    (page page_size total : ℕ)
    → 0 < page_size
    → ((new_pagination page page_size total).has_more ≡ true) ↔ (page * page_size < total)
unfolding new_pagination
has_more_iff page page_size total h =
    let (to, from) = pages_of_iff page page_size total h in
    rw (lt→ltb 0 page_size h) ((λ k. to (ltb→lt _ _ k)), (λ k. lt→ltb _ _ (from k)))
