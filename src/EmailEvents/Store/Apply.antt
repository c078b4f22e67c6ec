-- ===== src/EmailEvents/Store/Apply.antt =====
-- What `Apply` guarantees: it is atomic and idempotent, and it leaves the send queue alone.
use stonesuite_notify.Base.{
  ℕ, ◌≡◌, refl, sym, ap, ◌∙◌, ◌≢◌, ◌⊎◌, inl, inr, String, Bool, true, false, some, List, [], ◌∷◌,
  ◌++◌, map, if◌then◌else◌, Option-cases, nat_eq, any, find, contains, column_is, take, length,
  any_of_find, find_of_any, take-map-update, any-update_append, take-map, contains-map_last, ok,
  ◌==◌,
}
use stonesuite_notify.Deliveries.{DeliveryRow, Status, set_row, new_row, Channel}
use stonesuite_notify.EmailEvents.{status_for_event}
use stonesuite_notify.EmailEvents.Store.{
  Event, ApplyResult, Database, Statement, FreshIds, duplicate_event, leave, event_row,
  record_event, provider_row, apply_tx, finish, apply_known, apply,
}
use stonesuite_notify.EmailEvents.Store.Steps.{Tx-cases, IsApplied, apply_tx-IsApplied}

-- The columns of the send queue.
abbrev pub queue_of : DeliveryRow → String × Status × ℕ × ℕ
queue_of r = (r.id, r.status, r.attempts, r.next_attempt_at)

abbrev pub event_time : ℕ → Event → ℕ
event_time clock ev = if nat_eq ev.occurred_at 0 then clock else ev.occurred_at

abbrev by_provider : Event → DeliveryRow → Bool
by_provider ev r = column_is r.provider_email_id ev.provider_email_id

append_nil : {A : Type 0} (xs : List A) → xs ++ [] ≡ xs
append_nil [] = refl
append_nil (x ∷ xs) = ap (λ ys. x ∷ ys) (append_nil xs)

abbrev alert_log : FreshIds → ℕ → String → String → List DeliveryRow
alert_log ids now tenant_id actor =
    new_row ids.alert_delivery_id now ids.alert_id tenant_id actor Channel.in_app Status.sent ∷ []

module _ (refused : Statement → Bool) (ids : FreshIds) (now : ℕ) where
  pub apply-atomic :
      (clock : ℕ) (ev : Event) (db : Database)
      → ((apply refused ids now clock ev db).1 ≡ db)
        ⊎ ((incoming : String) × (res : ApplyResult) × (db' : Database) × (status_for_event ev.type
              ≡ some incoming)
            × (apply refused ids now clock ev db ≡ (ok res, db'))
            × IsApplied refused ids now incoming ev (event_time clock ev) db res db')
  unfolding apply
  apply-atomic clock ev db = elim (Option-cases (status_for_event ev.type)) [
    | inl e ↦ inl (rw (e, apply_known))
    | inr (incoming, e) ↦
        elim (Tx-cases (apply_tx refused ids now incoming ev (event_time clock ev) db)) [
          | inr (r, le) ↦ inl (rw (e, apply_known, le, finish))
          | inl ((res, db'), st) ↦ inr (
            incoming,
            res,
            db',
            e,
            rw (e, apply_known, st, finish),
            apply_tx-IsApplied refused ids now incoming ev (event_time clock ev) db st,
          )
        ]
  ]

  module _ {incoming : String} {ev : Event} {at : ℕ} {db : Database} {res : ApplyResult}
      {db' : Database} (applied : IsApplied refused ids now incoming ev at db res db') where
    -- The deliveries table after `Apply`: its rows, the matched one perhaps set, and perhaps a row
    -- for the alert.
    SetOrAdded : Type 0
    SetOrAdded =
        (db'.deliveries ≡ db.deliveries)
        ⊎ ((next : String) × (extra : List DeliveryRow) × (db'.deliveries
              ≡ set_row applied.delivery.id (provider_row refused ids now ev at next) db.deliveries
                ++ extra))

    written-deliveries : SetOrAdded
    unfolding SetOrAdded
    written-deliveries = elim applied.written [
      | inl (_, _, e) ↦ inl (ap (λ d. d.deliveries) e)
      | inr (inl (_, _, e, _)) ↦ inr (res.status, [], ap (λ d. d.deliveries) e ∙ sym (append_nil _))
      | inr (inr (_, _, _, al)) ↦ inr (
        res.status,
        alert_log ids now applied.delivery.tenant_id al.actor,
        ap (λ d. d.deliveries) al.added,
      )
    ]

    written-events :
        db'.email_events ≡ db.email_events ++ event_row refused ids now ev at applied.delivery ∷ []
    written-events = elim applied.written [
      | inl (_, _, e) ↦ ap (λ d. d.email_events) e
      | inr (inl (_, _, e, _)) ↦ ap (λ d. d.email_events) e
      | inr (inr (_, _, _, al)) ↦ ap (λ d. d.email_events) al.added
    ]

    IsApplied-queue :
        take (length db.deliveries) (map queue_of db'.deliveries) ≡ map queue_of db.deliveries
    unfolding SetOrAdded provider_row
    IsApplied-queue = elim written-deliveries [
      | inl e ↦ rw e (take-map queue_of db.deliveries)
      | inr (next, extra, e) ↦ rw e (
          take-map-update (λ r. r.id == applied.delivery.id)
            (provider_row refused ids now ev at next) db.deliveries extra queue_of (λ x. refl))
    ]

    IsApplied-found : any (by_provider ev) db'.deliveries ≡ true
    unfolding SetOrAdded provider_row
    IsApplied-found = elim written-deliveries [
      | inl e ↦ rw e was_found
      | inr (next, extra, e) ↦ rw e (
          any-update_append (λ r. r.id == applied.delivery.id)
            (provider_row refused ids now ev at next) db.deliveries extra (by_provider ev)
            (λ x. refl) was_found)
    ]
      where
        was_found : any (by_provider ev) db.deliveries ≡ true
        was_found = any_of_find (by_provider ev) db.deliveries applied.found

    IsApplied-seen : contains ev.svix_id (map (λ e. e.svix_id) db'.email_events) ≡ true
    unfolding event_row
    IsApplied-seen = rw written-events (
        contains-map_last (λ e. e.svix_id) db.email_events
          (event_row refused ids now ev at applied.delivery))

  -- `Apply` never disturbs the send queue: the delivery rows that were there keep their place, id,
  -- queue status, attempts and retry time, whatever the event says.
  pub apply-queue :
      (clock : ℕ) (ev : Event) (db : Database)
      → take (length db.deliveries) (map queue_of (apply refused ids now clock ev db).1.deliveries)
        ≡ map queue_of db.deliveries
  apply-queue clock ev db = elim (apply-atomic clock ev db) [
    | inl same ↦ rw same (take-map queue_of db.deliveries)
    | inr (incoming, res, db', _, e, applied) ↦ rw e (IsApplied-queue applied)
  ]

-- A webhook that wrote anything is recognised when the provider sends it again: run on the
-- database that the first run left, at any later time, `Apply` answers that the event is a
-- duplicate and writes nothing (if the database accepts the statements up to the event's insert).
pub apply-replayed :
    (refused refused' : Statement → Bool) (ids ids' : FreshIds) (now now' clock clock' : ℕ)
    (ev : Event) (db : Database)
    → (apply refused ids now clock ev db).1 ≢ db
    → refused' Statement.begin ≡ false
    → refused' Statement.find_delivery ≡ false
    → refused' Statement.insert_event ≡ false
    → apply refused' ids' now' clock' ev (apply refused ids now clock ev db).1
      ≡ (ok duplicate_event, (apply refused ids now clock ev db).1)
unfolding apply apply_tx record_event
apply-replayed refused refused' ids ids' now now' clock clock' ev db wrote begins finds inserts =
    elim (apply-atomic refused ids now clock ev db) [
      | inl same ↦ absurd (wrote same)
      | inr (incoming, res, db', known, e, applied) ↦
          let (d, found) =
            find_of_any (by_provider ev) db'.deliveries (IsApplied-found refused ids now applied) in
          rw e (
            rw (known, apply_known)
              (ap (λ t. finish refused' ids' now' t db')
                (leaves incoming (event_time clock' ev) db' d found
                  (IsApplied-seen refused ids now applied))))
    ]
  where
    leaves :
        (incoming : String) (at : ℕ) (db' : Database) (d : DeliveryRow)
        → find (by_provider ev) db'.deliveries ≡ some d
        → contains ev.svix_id (map (λ e. e.svix_id) db'.email_events) ≡ true
        → apply_tx refused' ids' now' incoming ev at db' ≡ leave (ok duplicate_event)
    leaves incoming at db' d found seen = rw (begins, finds, found, inserts, seen)
