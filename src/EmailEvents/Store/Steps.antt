-- ===== src/EmailEvents/Store/Steps.antt =====
-- The transaction of `Apply`, step by step: what a run that reaches its commit found and wrote.
use mathlib.Core.List.{Memᴰ}
use mathlib.Core.Path.{subst}
use mathlib.Core.Bool.{false≢true}
use stonesuite_notify.Base.{
  ℕ, ◌≡◌, refl, sym, ap, ◌∙◌, eq_iff, eq_refl, any, any-mem, any_of_mem, List, none, ◌⊎◌, inl, inr,
  String, Bool, true, false, ◌&&◌, ◌==◌, Option, some, [], ◌∷◌, ◌++◌, map, if◌then◌else◌, arith,
  Bool-cases, Option-cases, find, contains, or_empty, column_is, Result, ok, err,
}
use stonesuite_notify.Deliveries.{DeliveryRow, Channel, Status, set_row, new_row}
use stonesuite_notify.Notifications.{NotificationRow}
use stonesuite_notify.EmailEvents.{advance, is_problem}
use stonesuite_notify.EmailEvents.Store.{
  Event, ApplyResult, Database, Statement, FreshIds, duplicate_event, Tx, go, leave, event_row,
  record_event, alert_row, raise_alert, provider_row, change_status, apply_tx,
}

pub Tx-cases :
    {A : Type 0} (t : Tx A) → ((a : A) × (t ≡ go a)) ⊎ ((r : Result ApplyResult) × (t ≡ leave r))
Tx-cases (go a) = inl (a, refl)
Tx-cases (leave r) = inr (r, refl)

-- The statuses that tell of a problem.
abbrev pub problem_statuses : List String
problem_statuses = "delivery_delayed" ∷ "complained" ∷ "bounced" ∷ "failed" ∷ "suppressed" ∷ []

is_problem-any : (s : String) → is_problem s ≡ any (λ t. s == t) problem_statuses
unfolding is_problem
is_problem-any s = ground arith

is_problem-mem : (s : String) → is_problem s ≡ true → Memᴰ s problem_statuses
is_problem-mem s h =
    let (t, m, same) = any-mem (λ t. s == t) problem_statuses (sym (is_problem-any s) ∙ h) in
    subst (λ x. Memᴰ x problem_statuses) (sym ((eq_iff s t).0 same)) m

mem-is_problem : (s : String) → Memᴰ s problem_statuses → is_problem s ≡ true
mem-is_problem s m = is_problem-any s ∙ any_of_mem (λ t. s == t) s problem_statuses m (eq_refl s)

module _ (refused : Statement → Bool) (ids : FreshIds) (now : ℕ) where
  abbrev pub event_added : Event → ℕ → DeliveryRow → Database → Database
  event_added ev at d db = record db {
    email_events = db.email_events ++ event_row refused ids now ev at d ∷ [];
  }

  record_event-go :
      (ev : Event) (at : ℕ) (d : DeliveryRow) (db : Database)
      → ((record_event refused ids now ev at d db ≡ go (event_added ev at d db))
          × (contains ev.svix_id (map (λ e. e.svix_id) db.email_events) ≡ false))
        ⊎ ((r : Result ApplyResult) × (record_event refused ids now ev at d db ≡ leave r))
  unfolding record_event
  record_event-go ev at d db = elim (Bool-cases (refused Statement.insert_event)) [
    | inl e ↦ inr (err "record email event", rw e)
    | inr e ↦ elim (Bool-cases (contains ev.svix_id (map (λ x. x.svix_id) db.email_events))) [
      | inl seen ↦ inr (ok duplicate_event, rw (e, seen))
      | inr fresh ↦ inl (rw (e, fresh), fresh)
    ]
  ]

  abbrev pub provider_updated : Event → ℕ → DeliveryRow → String → Database → Database
  provider_updated ev at d next db = record db {
    deliveries = set_row d.id (provider_row refused ids now ev at next) db.deliveries;
  }

  -- The rows that an alert adds.
  abbrev pub alert_added : NotificationRow → String → String → String → Database → Database
  alert_added n tenant_id actor status db = record db {
    notifications = db.notifications ++ alert_row refused ids now n tenant_id actor status ∷ [];
    deliveries =
        db.deliveries
        ++ new_row ids.alert_delivery_id now ids.alert_id tenant_id actor Channel.in_app Status.sent
          ∷ [];
  }

  -- The alert of a notification that has an actor.
  pub record IsAlerted (tenant_id notification_id status : String) (db db' : Database)
      : Type 0 where
    pub original : NotificationRow
    pub actor : String
    pub loaded :
        find (λ n. n.id == notification_id && n.tenant_id == tenant_id) db.notifications
        ≡ some original
    pub has_actor : original.actor_user_id ≡ some actor
    pub added : db' ≡ alert_added original tenant_id actor status db

  -- There is nobody to alert: the original notification is gone, or has no actor.
  abbrev pub NobodyToAlert : String → String → Database → Type 0
  NobodyToAlert tenant_id notification_id db =
      (n : NotificationRow)
      → find (λ n. n.id == notification_id && n.tenant_id == tenant_id) db.notifications ≡ some n
      → (n.actor_user_id ≡ none) ⊎ (n.actor_user_id ≡ some "")

  raise_alert-go :
      (tenant_id notification_id status : String) (db : Database) {a : Bool} {db' : Database}
      → raise_alert refused ids now tenant_id notification_id status db ≡ go (a, db')
      → ((a ≡ false) × (db' ≡ db) × NobodyToAlert tenant_id notification_id db)
        ⊎ ((a ≡ true) × IsAlerted tenant_id notification_id status db db')
  unfolding raise_alert
  raise_alert-go tenant_id notification_id status db {a} {db'} h = elim (Option-cases found) [
    | inl e ↦ inl (ground arith, ground arith, λ n k. cc)
    | inr (n, e) ↦ elim (Option-cases n.actor_user_id) [
      | inl no_actor ↦ inl (ground arith, ground arith, λ m k. inl (the_one n m e k no_actor))
      | inr (actor, e') ↦ elim (Bool-cases (actor == "")) [
        | inl blank ↦ inl (
          ground arith,
          ground arith,
          λ m k. inr (the_one n m e k (e' ∙ ap some ((eq_iff actor "").0 blank))),
        )
        | inr named ↦ inr (
          ground arith,
          record { original = n; actor = actor; loaded = e; has_actor = e'; added = ground arith },
        )
      ]
    ]
  ]
    where
      found : Option NotificationRow
      found = find (λ n. n.id == notification_id && n.tenant_id == tenant_id) db.notifications

      the_one :
          (n m : NotificationRow) {a : Option String}
          → found ≡ some n
          → found ≡ some m
          → n.actor_user_id ≡ a
          → m.actor_user_id ≡ a
      the_one n m e k h =
          ap (λ o. elim o [ none ↦ n.actor_user_id | some x ↦ x.actor_user_id ]) (sym k ∙ e) ∙ h

  change_status-go :
      (ev : Event) (at : ℕ) (d : DeliveryRow) (next : String) (db : Database) {a : Bool}
      {db' : Database}
      → change_status refused ids now ev at d next db ≡ go (a, db')
      → ((a ≡ false)
          × (db' ≡ provider_updated ev at d next db)
          × (is_problem next ≡ true
              → NobodyToAlert d.tenant_id d.notification_id (provider_updated ev at d next db)))
        ⊎ ((a ≡ true)
            × (is_problem next ≡ true)
            × IsAlerted d.tenant_id d.notification_id next (provider_updated ev at d next db) db')
  unfolding change_status
  change_status-go ev at d next db {a} {db'} h = elim (Bool-cases (is_problem next)) [
    | inr e ↦ inl (ground arith, ground arith, λ problem. absurd (false≢true (sym e ∙ problem)))
    | inl e ↦
        elim (raise_alert-go d.tenant_id d.notification_id next (provider_updated ev at d next db)
          {a = a} {db' = db'} (raised e)) [
            | inl (quiet, same, nobody) ↦ inl (quiet, same, λ _. nobody)
            | inr (did, alerted) ↦ inr (did, e, alerted)
          ]
  ]
    where
      raised :
          is_problem next ≡ true
          → raise_alert refused ids now d.tenant_id d.notification_id next
              (provider_updated ev at d next db)
            ≡ go (a, db')
      raised e = ground arith

  -- What a committed `Apply` found and wrote, `at` being the event's time: the event is recorded;
  -- the status advances if the incoming one ranks higher; a problem status that it advances to
  -- alerts the actor of the original notification, if there is one.
  pub record IsApplied (incoming : String) (ev : Event) (at : ℕ) (db : Database) (res : ApplyResult)
      (db' : Database) : Type 0 where
    pub delivery : DeliveryRow
    pub found :
        find (λ r. column_is r.provider_email_id ev.provider_email_id) db.deliveries ≡ some delivery
    pub is_new : contains ev.svix_id (map (λ e. e.svix_id) db.email_events) ≡ false
    pub result_matched : res.matched ≡ true
    pub result_fresh : res.duplicate ≡ false
    pub result_status : res.status ≡ (advance (or_empty delivery.provider_status) incoming).0
    pub result_changed : res.changed ≡ (advance (or_empty delivery.provider_status) incoming).1
    pub written :
        ((res.changed ≡ false) × (res.alerted ≡ false) × (db' ≡ event_added ev at delivery db))
        ⊎ (((res.changed ≡ true)
              × (res.alerted ≡ false)
              × (db' ≡ provider_updated ev at delivery res.status (event_added ev at delivery db))
              × (Memᴰ res.status problem_statuses
                  → NobodyToAlert delivery.tenant_id delivery.notification_id db))
            ⊎ ((res.changed ≡ true)
                × (res.alerted ≡ true)
                × Memᴰ res.status problem_statuses
                × IsAlerted delivery.tenant_id delivery.notification_id res.status
                    (provider_updated ev at delivery res.status (event_added ev at delivery db))
                    db'))

  abbrev result : String → Event → DeliveryRow → Bool → ApplyResult
  result incoming ev d alerted = record {
    matched = true;
    duplicate = false;
    changed = (advance (or_empty d.provider_status) incoming).1;
    alerted = alerted;
    status = (advance (or_empty d.provider_status) incoming).0;
  }

  abbrev moved : String → DeliveryRow → String × Bool
  moved incoming d = advance (or_empty d.provider_status) incoming

  -- The transaction after the event is recorded.
  abbrev settled : String → Event → ℕ → DeliveryRow → Database → Tx (Bool × Database)
  settled incoming ev at d db' =
      if (moved incoming d).1
      then change_status refused ids now ev at d (moved incoming d).0 db'
      else go (false, db')

  -- Which steps a transaction that reaches its commit has made.
  apply_tx-steps :
      (incoming : String) (ev : Event) (at : ℕ) (db : Database) {res : ApplyResult} {db' : Database}
      → apply_tx refused ids now incoming ev at db ≡ go (res, db')
      → (d : DeliveryRow) × (alerted : Bool) × (find
            (λ r. column_is r.provider_email_id ev.provider_email_id)
            db.deliveries
          ≡ some d)
        × (contains ev.svix_id (map (λ e. e.svix_id) db.email_events) ≡ false)
        × (settled incoming ev at d (event_added ev at d db) ≡ go (alerted, db'))
        × (res ≡ result incoming ev d alerted)
  unfolding apply_tx
  apply_tx-steps incoming ev at db {res} {db'} h =
      elim (Option-cases
        (find (λ r. column_is r.provider_email_id ev.provider_email_id) db.deliveries)) [
          | inl e ↦ absurd (ground arith)
          | inr (d, e) ↦ elim (record_event-go ev at d db) [
            | inr (r, le) ↦ absurd (ground (arith, le))
            | inl (ge, fresh) ↦
                elim (Tx-cases (settled incoming ev at d (event_added ev at d db))) [
                  | inr (r, le) ↦ absurd (ground (arith, le, ge))
                  | inl ((a, db₂), st) ↦
                      (d, a, e, fresh, ground (arith, ge, st), ground (arith, ge, st))
                ]
          ]
        ]

  pub apply_tx-IsApplied :
      (incoming : String) (ev : Event) (at : ℕ) (db : Database) {res : ApplyResult} {db' : Database}
      → apply_tx refused ids now incoming ev at db ≡ go (res, db')
      → IsApplied incoming ev at db res db'
  apply_tx-IsApplied incoming ev at db {res} {db'} h =
      let (d, alerted, found, fresh, st, same) = apply_tx-steps incoming ev at db h in
      let added = event_added ev at d db in
      rw same (record {
        delivery = d;
        found = found;
        is_new = fresh;
        result_matched = refl;
        result_fresh = refl;
        result_status = refl;
        result_changed = refl;
        written = elim (Bool-cases (moved incoming d).1) [
          | inr still ↦ inl (still, ground (arith, st), ground (arith, st))
          | inl up ↦
              elim (change_status-go ev at d (moved incoming d).0 added {a = alerted} {db' = db'}
                (rw up at st)) [
                  | inl (quiet, e, nobody) ↦
                      inr (inl (up, quiet, e, λ p. nobody (mem-is_problem _ p)))
                  | inr (loud, problem, al) ↦ inr (inr (up, loud, is_problem-mem _ problem, al))
                ]
        ];
      })
