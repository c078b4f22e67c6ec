-- ===== src/Audit/Trail.antt =====
-- What a reader of the trail sees.
use mathlib.Core.Path.{subst}
use stonesuite_notify.Base.{
  ℕ, ◌≤◌, ◌≡◌, refl, ap, inl, inr, String, true, ◌==◌, Option, none, some, List, [], ◌∷◌, ◌++◌,
  length, length-map, length-take-le, take, drop, arith, All, All-map, All-take, All-drop,
  All-sort_by, All-select_self, select, sort_by, eq_iff, Bool-cases, ok, ok-injective,
}
use stonesuite_notify.Base.Int.{ℤ, pos, negsuc}
use stonesuite_notify.Audit.{
  Entry, EntryRow, Filter, max_limit, clamp_limit, normalize, scan_entry, Condition, add_text,
  add_time, conditions_of, meets, newer, list,
}

meets-append_left :
    (cs : List Condition) (c : Condition) (r : EntryRow)
    → meets (cs ++ c ∷ []) r ≡ true
    → meets cs r ≡ true
meets-append_left [] c r h = refl
meets-append_left (d ∷ cs) c r h = elim (Bool-cases (d r)) [
  | inl e ↦ rw e (meets-append_left cs c r (rw e at h))
  | inr e ↦ cc (rw e at h)
]

meets-add_text :
    (v : String) (c : Condition) (cs : List Condition) (r : EntryRow)
    → meets (add_text v c cs) r ≡ true
    → meets cs r ≡ true
meets-add_text v c cs r h = elim (Bool-cases (v == "")) [
  | inl e ↦ rw e at h
  | inr e ↦ meets-append_left cs c r (rw e at h)
]

meets-add_time :
    (t : Option ℕ) (c : ℕ → Condition) (cs : List Condition) (r : EntryRow)
    → meets (add_time t c cs) r ≡ true
    → meets cs r ≡ true
meets-add_time none c cs r h = h
meets-add_time (some t) c cs r h = meets-append_left cs (c t) r h

-- Whatever the filter, a row that meets the conditions is the tenant's.
conditions_of-tenant :
    (t : String) (f : Filter) (r : EntryRow) → meets (conditions_of t f) r ≡ true → r.tenant_id ≡ t
unfolding conditions_of
conditions_of-tenant t f r h = (eq_iff r.tenant_id t).0 (
    ground (
      arith,
      meets-add_text f.action _ ((λ x. x.tenant_id == t) ∷ []) r (
          meets-add_text f.actor_user_id _ _ r (
            meets-add_text f.resource _ _ r (
              meets-add_text f.resource_id _ _ r
                (meets-add_time f.from _ _ r (meets-add_time f.until _ _ r h))))),
    ))

clamp_limit-le : (n : ℤ) → clamp_limit n ≤ max_limit
unfolding clamp_limit
clamp_limit-le (pos n) = ground arith
clamp_limit-le (negsuc n) = omega arith

-- No filter shows a tenant the trail of another, and one answer has at most 200 entries.
pub list-tenant :
    (tenant_id : String) (f : Filter) (table : List EntryRow) (es : List Entry) (total : ℕ)
    → list true true tenant_id f table ≡ ok (es, total)
    → All (λ e. e.tenant_id ≡ tenant_id) es × (length es ≤ max_limit)
unfolding list scan_entry normalize
list-tenant t f table es total h =
    let rows = sort_by newer (select (meets (conditions_of t f)) table) in
    subst (λ xs. All (λ e. e.tenant_id ≡ t) xs × (length xs ≤ max_limit))
      (ap (λ (p : List Entry × ℕ). p.0) (ok-injective _ (es, total) h))
      (
        All-map (λ e. e.tenant_id ≡ t) scan_entry _
            (All-take (λ r. r.tenant_id ≡ t) (normalize f).0 _
              (All-drop (λ r. r.tenant_id ≡ t) (normalize f).1 rows
                (All-sort_by newer (λ r. r.tenant_id ≡ t) _
                  (All-select_self (λ r. r.tenant_id ≡ t) (meets (conditions_of t f))
                    (conditions_of-tenant t f) table)))),
        omega (
          arith,
          length-map scan_entry (take (normalize f).0 (drop (normalize f).1 rows)),
          length-take-le (normalize f).0 (drop (normalize f).1 rows),
          clamp_limit-le f.limit,
        ),
      )
