-- ===== src/Pushsubs/Endpoints.antt =====
-- An endpoint belongs to one user at a time.
use stonesuite_notify.Base.{
  ℕ, ◌≡◌, ◌≢◌, refl, sym, ap, inl, inr, String, true, false, not, ◌&&◌, ◌==◌, List, arith,
  Bool-cases, eq_iff, eq_refl, upsert, any, All, All-impl, All-select_with, All-select_self,
  select-select, All-append, All-false_of_any, update-All_hit, IsKeyed, IsKeyed-update,
  IsKeyed-append_one, ok, ok-injective,
}
use stonesuite_notify.Pushsubs.{
  Subscription, SaveInput, endpoint_of, has_endpoint, is_owned, taken_over, new_subscription, save,
  delete, list_for_user,
}

HasOwner : String → String → String → Subscription → Type 0
HasOwner e t u s = (has_endpoint e s ≡ true) → is_owned t u s ≡ true

fresh-ne :
    (e : String) (table : List Subscription)
    → any (has_endpoint e) table ≡ false
    → All (λ s. s.endpoint ≢ e) table
fresh-ne e table h =
    All-impl (λ s. has_endpoint e s ≡ false) (λ s. s.endpoint ≢ e)
      (λ s no same. ground (arith, eq_iff s.endpoint e)) table
      (All-false_of_any (has_endpoint e) table h)

-- Two owners that differ do not both own a subscription.
not_both :
    (t u t' u' : String) (s : Subscription)
    → (t == t' && u == u') ≡ false
    → is_owned t' u' s ≡ true
    → is_owned t u s ≡ true
    → ⊥
not_both t u t' u' s other theirs mine = ground (
  arith,
  eq_iff s.tenant_id t,
  eq_iff s.user_id u,
  eq_iff s.tenant_id t',
  eq_iff s.user_id u',
  eq_iff t t',
  eq_iff u u',
)

-- If no two subscriptions have the same endpoint, the same holds after `Save`.
pub save-IsKeyed :
    (id : String) (now : ℕ) (t u : String) (input : SaveInput) (table table' : List Subscription)
    → IsKeyed endpoint_of table
    → save true id now t u input table ≡ ok table'
    → IsKeyed endpoint_of table'
unfolding save taken_over new_subscription
save-IsKeyed id now t u input table table' k h =
    rw (sym (ok-injective _ table' h))
      (elim (Bool-cases (any (has_endpoint input.endpoint) table)) [
        | inl e ↦ rw e (
            IsKeyed-update endpoint_of (has_endpoint input.endpoint) (taken_over t u input)
              (λ s. refl) table k)
        | inr e ↦ rw e (
            IsKeyed-append_one endpoint_of table (new_subscription id now t u input) k
              (fresh-ne input.endpoint table e))
      ])

-- After a user subscribes with an endpoint, every subscription of that endpoint is theirs.
save-HasOwner :
    (id : String) (now : ℕ) (t u : String) (input : SaveInput) (table : List Subscription)
    → All (HasOwner input.endpoint t u) (
        upsert
          (has_endpoint input.endpoint)
          (taken_over t u input)
          (new_subscription id now t u input)
          table)
unfolding HasOwner taken_over new_subscription
save-HasOwner id now t u input table = elim (Bool-cases (any (has_endpoint input.endpoint) table)) [
  | inl e ↦ rw e (
      update-All_hit (λ s. is_owned t u s ≡ true) (has_endpoint input.endpoint)
        (taken_over t u input) (λ s _. mine) table)
  | inr e ↦ rw e (
      All-append (HasOwner input.endpoint t u) table _
        (All-impl (λ s. has_endpoint input.endpoint s ≡ false) (HasOwner input.endpoint t u)
          (λ s no yes'. cc) table (All-false_of_any (has_endpoint input.endpoint) table e))
        ((λ _. mine), tt))
]
  where
    mine : (t == t && u == u) ≡ true
    mine = rw (eq_refl t, eq_refl u)

-- After a user subscribes with an endpoint, nobody else's notifications go to it: the list of any
-- other user, of the same tenant or another, has no subscription of that endpoint.
pub save-moves :
    (id : String) (now : ℕ) (t u t' u' : String) (input : SaveInput)
    (table table' theirs : List Subscription)
    → (t == t' && u == u') ≡ false
    → save true id now t u input table ≡ ok table'
    → list_for_user true t' u' table' ≡ ok theirs
    → All (λ s. s.endpoint ≢ input.endpoint) theirs
unfolding save list_for_user HasOwner
save-moves id now t u t' u' input table table' theirs other h k =
    rw (sym (ok-injective _ theirs k), sym (ok-injective _ table' h))
      (All-select_with (HasOwner input.endpoint t u) (λ s. s.endpoint ≢ input.endpoint)
        (is_owned t' u')
        (λ s owned own same.
          not_both t u t' u' s other owned (own ((eq_iff s.endpoint input.endpoint).1 same)))
        _ (save-HasOwner id now t u input table))

-- A user who unsubscribes an endpoint has no subscription of it left, and the list of any other
-- user is as it was.
pub delete-scoped :
    (t u t' u' e : String) (table : List Subscription)
    → (t == t' && u == u') ≡ false
    → (table' : List Subscription) × (mine : List Subscription) × (delete true t u e table
        ≡ ok table')
      × (list_for_user true t u table' ≡ ok mine)
      × All (λ s. s.endpoint ≢ e) mine
      × (list_for_user true t' u' table' ≡ list_for_user true t' u' table)
unfolding delete list_for_user
delete-scoped t u t' u' e table other = (
  _,
  _,
  refl,
  refl,
  All-select_with (λ s. not (is_owned t u s && has_endpoint e s) ≡ true) (λ s. s.endpoint ≢ e)
      (is_owned t u) (λ s owned kept' same. gone s owned kept' ((eq_iff s.endpoint e).1 same)) _
      (All-select_self (λ s. not (is_owned t u s && has_endpoint e s) ≡ true)
        (λ s. not (is_owned t u s && has_endpoint e s)) (λ s k. k) table),
  ap ok (
      select-select (λ s. not (is_owned t u s && has_endpoint e s)) (is_owned t' u')
        (λ s deleted. elim (Bool-cases (is_owned t' u' s)) [
          | inr no_one ↦ no_one
          | inl theirs ↦ absurd (not_both t u t' u' s other theirs (mine_too s deleted))
        ])
        table),
)
  where
    gone :
        (s : Subscription)
        → is_owned t u s ≡ true
        → not (is_owned t u s && has_endpoint e s) ≡ true
        → has_endpoint e s ≡ true
        → ⊥
    gone s a b c = cc (rw (a, c) at b)

    mine_too :
        (s : Subscription)
        → not (is_owned t u s && has_endpoint e s) ≡ false
        → is_owned t u s ≡ true
    mine_too s d = elim (Bool-cases (is_owned t u s)) [ inl a ↦ a | inr a ↦ cc (rw a at d) ]
