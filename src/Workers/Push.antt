-- ===== src/Workers/Push.antt =====
-- What an attempt at a push delivery sent, the next attempt skips.
use mathlib.Core.Path.{subst}
use mathlib.Core.List.{Memᴰ}
use stonesuite_notify.Base.{
  ◌≡◌, ◌≢◌, refl, sym, ap, ◌∙◌, ◌⊎◌, inl, inr, String, Bool, true, false, ◌==◌, Option, none, some,
  List, [], ◌∷◌, ◌++◌, arith, All, All-impl, IsKeyed, All-append, find, find-upsert,
  find-upsert_other, set_or_new, eq_iff, eq_refl, Bool-cases, Result, ok, err,
}
use stonesuite_notify.Deliveries.{Delivery}
use stonesuite_notify.Notifications.{Notification}
use stonesuite_notify.Pushsubs.{Subscription}
use stonesuite_notify.Workers.{Env, PushRun, sent_before, push_result, push_one, push_all}
use stonesuite_notify.Workers.Response.{
  EndpointOutcome, Outcomes, has_key, lookup, put, value_of, encode_push_response,
  decode_push_response, decode-encode_push_response,
}

lookup-put : (k : String) (v : EndpointOutcome) (o : Outcomes) → lookup k (put k v o) ≡ some v
unfolding lookup put
lookup-put k v o =
    ap value_of (find-upsert (has_key k) (λ e. (e.0, v)) (k, v) (λ e. refl) o (eq_refl k))
    ∙ by_found (find (has_key k) o)
  where
    by_found :
        (f : Option (String × EndpointOutcome))
        → value_of (some (set_or_new (λ e. (e.0, v)) (k, v) f)) ≡ some v
    by_found none = refl
    by_found (some e) = refl

lookup-put_other :
    (j k : String) (v : EndpointOutcome) (o : Outcomes)
    → (k == j) ≡ false
    → lookup j (put k v o) ≡ lookup j o
unfolding lookup put
lookup-put_other j k v o h = ap value_of (
    find-upsert_other (has_key k) (λ e. (e.0, v)) (k, v) (has_key j) (λ e. refl)
      (λ e hit. subst (λ s. (s == j) ≡ false) (sym ((eq_iff e.0 k).0 hit)) h) h o)

abbrev id_of : Subscription → String
id_of s = s.id

-- Whether the provider takes the notification for a subscription.
abbrev accepts : Env → Notification → Subscription → Result Bool
accepts env n sub = env.send_push sub.endpoint sub.p256dh sub.auth n.title n.body n.link

sent_before_again :
    (o : Option EndpointOutcome) {prev : EndpointOutcome}
    → sent_before o ≡ some prev
    → sent_before (some prev) ≡ some prev
sent_before_again none h = cc
sent_before_again (some v) h = elim (Bool-cases (v.status == "sent")) [
  | inl e ↦ subst (λ o. sent_before o ≡ o) (rw e at h) (rw e refl)
  | inr e ↦ cc (rw e at h)
]

module _ (env : Env) (d : Delivery) (n : Notification) (prior : Outcomes) where
  push_result-pushed :
      (sub : Subscription) (res : Result Bool) (run : PushRun)
      → (push_result env d sub res run).pushed ≡ run.pushed
  unfolding push_result
  push_result-pushed sub (err e) run = refl
  push_result-pushed sub (ok true) run = refl
  push_result-pushed sub (ok false) run = refl

  abbrev IsNew : String → Type 0
  IsNew id = sent_before (lookup id prior) ≡ none

  push_one-IsNew :
      (sub : Subscription) (prev : Option EndpointOutcome) (run : PushRun)
      → sent_before (lookup sub.id prior) ≡ prev
      → All IsNew run.pushed
      → All IsNew (push_one env d n sub prev run).pushed
  unfolding push_one
  push_one-IsNew sub (some prev) run e h = h
  push_one-IsNew sub none run e h =
      subst (All IsNew)
        (sym (
          push_result-pushed sub (accepts env n sub)
            (record run { pushed = run.pushed ++ sub.id ∷ [] })))
        (All-append IsNew run.pushed (sub.id ∷ []) h (e, tt))

  -- The loop pushes to nothing that the earlier outcomes say was sent to.
  push_all-IsNew :
      (subs : List Subscription) (run : PushRun)
      → All IsNew run.pushed
      → All IsNew (push_all env d n prior subs run).pushed
  unfolding push_all
  push_all-IsNew [] run h = h
  push_all-IsNew (sub ∷ subs) run h =
      push_all-IsNew subs _ (push_one-IsNew sub (sent_before (lookup sub.id prior)) run refl h)

  -- The loop's turn for one subscription leaves the outcomes of the others.
  push_one-other :
      (j : String) (sub : Subscription) (prev : Option EndpointOutcome) (run : PushRun)
      → (sub.id == j) ≡ false
      → lookup j (push_one env d n sub prev run).outcomes ≡ lookup j run.outcomes
  unfolding push_one
  push_one-other j sub (some prev) run h = lookup-put_other j sub.id prev run.outcomes h
  push_one-other j sub none run h = by_result (accepts env n sub)
    where
      by_result :
          (res : Result Bool)
          → lookup j
              (push_result env d sub res
                (record run { pushed = run.pushed ++ sub.id ∷ [] })).outcomes
            ≡ lookup j run.outcomes
      by_result (ok true) = unfold push_result in refl
      by_result (ok false) = unfold push_result in lookup-put_other j sub.id _ run.outcomes h
      by_result (err e) = unfold push_result in lookup-put_other j sub.id _ run.outcomes h

  push_all-other :
      (j : String) (subs : List Subscription) (run : PushRun)
      → All (λ s. s.id ≢ j) subs
      → lookup j (push_all env d n prior subs run).outcomes ≡ lookup j run.outcomes
  unfolding push_all
  push_all-other j [] run h = refl
  push_all-other j (sub ∷ subs) run h =
      push_all-other j subs _ h.1
      ∙ push_one-other j sub (sent_before (lookup sub.id prior)) run
          (ground (arith, eq_iff sub.id j, h.0))

  -- A subscription that was sent to before, or whose push the provider takes now.
  unfoldable pub IsDelivered : Subscription → Type 0
  IsDelivered sub =
      (accepts env n sub ≡ ok false)
      ⊎ ((prev : EndpointOutcome) × (sent_before (lookup sub.id prior) ≡ some prev))

  push_one-sent :
      (sub : Subscription) (prev : Option EndpointOutcome) (run : PushRun)
      → sent_before (lookup sub.id prior) ≡ prev
      → IsDelivered sub
      → (after : EndpointOutcome) × (sent_before
            (lookup sub.id (push_one env d n sub prev run).outcomes)
          ≡ some after)
  unfolding push_one push_result IsDelivered
  push_one-sent sub (some prev) run e h = (
    prev,
    ap sent_before (lookup-put sub.id prev run.outcomes)
        ∙ sent_before_again (lookup sub.id prior) e,
  )
  push_one-sent sub none run e (inr (prev, k)) = cc
  push_one-sent sub none run e (inl h) = (
    record { status = "sent"; error = "" },
    rw h (ap sent_before (lookup-put sub.id _ run.outcomes)),
  )

  push_all-sent :
      (sub : Subscription) (subs : List Subscription) (run : PushRun)
      → IsKeyed id_of subs
      → Memᴰ sub subs
      → IsDelivered sub
      → (after : EndpointOutcome) × (sent_before
            (lookup sub.id (push_all env d n prior subs run).outcomes)
          ≡ some after)
  unfolding push_all
  push_all-sent sub [] run k m h = elim m [ ]
  push_all-sent sub (s ∷ subs) run k (Memᴰ.tail m) h = push_all-sent sub subs _ k.1 m h
  push_all-sent sub (s ∷ subs) run k (Memᴰ.head e) h =
      let (after, found) = push_one-sent sub (sent_before (lookup sub.id prior)) run refl h in
      let same =
        push_all-other sub.id subs (push_one env d n sub (sent_before (lookup sub.id prior)) run)
          (subst (λ x. All (λ y. y.id ≢ x.id) subs) (sym e) k.0) in
      (
        after,
        subst
            (λ x.
              sent_before (
                lookup sub.id
                  (push_all env d n prior subs
                    (push_one env d n x (sent_before (lookup x.id prior)) run)).outcomes)
              ≡ some after)
            e (ap sent_before same ∙ found),
      )

-- A retry skips the devices that were reached: a subscription whose push the provider accepted in
-- one attempt, or that was sent to before it, is not pushed to by an attempt that reads the
-- outcomes which the first one recorded, whatever the provider answers then and whichever devices
-- there are. The first attempt's subscriptions have distinct ids.
pub push_all-never_twice :
    (env env' : Env) (d d' : Delivery) (n n' : Notification) (prior : Outcomes)
    (subs subs' : List Subscription) (run run' : PushRun) (sub : Subscription)
    → IsKeyed id_of subs
    → Memᴰ sub subs
    → IsDelivered env d n prior sub
    → run'.pushed ≡ []
    → All
        (λ id. id ≢ sub.id)
        (push_all env' d' n'
          (decode_push_response
            (some (encode_push_response (push_all env d n prior subs run).outcomes)))
          subs'
          run').pushed
push_all-never_twice env env' d d' n n' prior subs subs' run run' sub keyed m h none_yet =
    rw (decode-encode_push_response (push_all env d n prior subs run).outcomes) (
      let (after, found) = push_all-sent env d n prior sub subs run keyed m h in
      All-impl (λ id. sent_before (lookup id (push_all env d n prior subs run).outcomes) ≡ none)
        (λ id. id ≢ sub.id)
        (λ id fresh same. cc (
          subst (λ i. sent_before (lookup i (push_all env d n prior subs run).outcomes) ≡ none) same
            fresh))
        _
        (push_all-IsNew env' d' n' (push_all env d n prior subs run).outcomes subs' run'
          (rw none_yet tt)))
