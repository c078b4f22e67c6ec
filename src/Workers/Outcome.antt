-- ===== src/Workers/Outcome.antt =====
-- How an attempt at a delivery ends.
use stonesuite_notify.Base.{
  length, ◌+◌, ◌≤◌, ◌<◌, ◌≡◌, ◌≢◌, refl, ap, inl, inr, String, true, ◌==◌, Option, none, List, [],
  ◌∷◌, ◌++◌, leb, leb→le, arith, All, update-All_hit, Bool-cases, Result, ok, err,
}
use stonesuite_notify.Base.Int.{pos}
use stonesuite_notify.Base.Json.{Json, Fields}
use stonesuite_notify.Base.Text.{◌+++◌}
use stonesuite_notify.Deliveries.{
  Channel, DeliveryRow, Delivery, Status, mark_sent, mark_skipped, mark_retrying,
  max_attempts_allowed, sent_row, skipped_row, retried_row, set_row,
}
use stonesuite_notify.Notifications.{Notification, get}
use stonesuite_notify.Notifications.Attachments.{get_attachment}
use stonesuite_notify.Pushsubs.{Subscription, list_for_user}
use stonesuite_notify.Workers.{
  World, Env, entry_of, record_outcome, mark_failed_attempt, email_result, attempt_email,
  email_content, PushRun, push_done, push_to, attempt_push, dispatch, attempt_with,
  attempt_delivery,
}

-- What holds of every row of a delivery.
pub RowsOf : String → (DeliveryRow → Type 0) → World → Type 0
RowsOf id P w = All (λ r. (r.id == id) ≡ true → P r) w.deliveries

-- The ways an attempt ends: the row's status, and what the audit log gained.
pub data Settles (env : Env) (d : Delivery) (w w' : World) : Type 0 where
  is_sent :
      (extra : Fields → Fields)
      → RowsOf d.id (λ r. r.status ≡ Status.sent) w'
      → w'.audit_log ≡ w.audit_log ++ entry_of env d "delivery.sent" extra ∷ []
      → Settles env d w w'
  is_skipped :
      RowsOf d.id (λ r. r.status ≡ Status.skipped) w'
      → w'.audit_log ≡ w.audit_log
      → Settles env d w w'
  is_retrying :
      d.attempts + 1 < max_attempts_allowed
      → RowsOf d.id (λ r. (r.status ≡ Status.retrying) × (r.attempts ≡ d.attempts + 1)) w'
      → w'.audit_log ≡ w.audit_log
      → Settles env d w w'
  is_failed :
      (extra : Fields → Fields)
      → max_attempts_allowed ≤ d.attempts + 1
      → RowsOf d.id (λ r. (r.status ≡ Status.failed) × (r.attempts ≡ d.attempts + 1)) w'
      → w'.audit_log ≡ w.audit_log ++ entry_of env d "delivery.failed" extra ∷ []
      → Settles env d w w'

set_row-All :
    (P : DeliveryRow → Type 0) (id : String) (f : DeliveryRow → DeliveryRow)
    → ((r : DeliveryRow) → P (f r))
    → (table : List DeliveryRow) → All (λ r. (r.id == id) ≡ true → P r) (set_row id f table)
set_row-All P id f h table = update-All_hit P (λ r. r.id == id) f (λ r _. h r) table

module _ (env : Env) (marks : env.mark_ok ≡ true) (audits : env.audited ≡ true) (d : Delivery) where
  mark_failed_attempt-Settles :
      (e : String) (response : Option Json) (w w₀ : World)
      → w.audit_log ≡ w₀.audit_log
      → Settles env d w₀ (mark_failed_attempt env d e response w)
  unfolding mark_failed_attempt record_outcome mark_retrying RowsOf retried_row
  mark_failed_attempt-Settles e response w w₀ same =
      elim (Bool-cases (leb max_attempts_allowed (d.attempts + 1))) [
        | inl over ↦
            rw (over, marks, audits)
              (is_failed (Fields.field "lastError" (Json.string e))
                (omega (arith, leb→le max_attempts_allowed (d.attempts + 1) over))
                (set_row-All _ d.id _ (λ r. (rw over refl, refl)) w.deliveries)
                (ap
                  (λ log.
                    log
                    ++ entry_of env d "delivery.failed" (Fields.field "lastError" (Json.string e))
                      ∷ [])
                  same))
        | inr more ↦
            rw (more, marks)
              (is_retrying (ground (arith, more))
                (set_row-All _ d.id _ (λ r. (rw more refl, refl)) w.deliveries) same)
      ]

  email_result-Settles :
      (res : Result String) (w w₀ : World)
      → w.audit_log ≡ w₀.audit_log
      → Settles env d w₀ (email_result env d res w)
  unfolding email_result record_outcome mark_sent RowsOf sent_row
  email_result-Settles (err e) w w₀ same = mark_failed_attempt-Settles e none w w₀ same
  email_result-Settles (ok provider_id) w w₀ same =
      rw (marks, audits)
        (is_sent (λ fs. fs) (set_row-All _ d.id _ (λ r. refl) w.deliveries)
          (ap (λ log. log ++ entry_of env d "delivery.sent" (λ fs. fs) ∷ []) same))

  push_done-Settles : (run : PushRun) (w : World) → Settles env d w (push_done env d run w)
  unfolding push_done record_outcome mark_sent RowsOf sent_row
  push_done-Settles run w = elim (Bool-cases run.all_sent) [
    | inl e ↦
        rw (e, marks, audits)
          (is_sent (Fields.field "endpoints" (Json.number (pos (length run.outcomes))))
            (set_row-All _ d.id _ (λ r. refl) w.deliveries) refl)
    | inr e ↦ rw e (mark_failed_attempt-Settles _ _ _ w refl)
  ]

  push_to-Settles :
      (n : Notification) (subs : Result (List Subscription)) (w : World)
      → Settles env d w (push_to env d n subs w)
  unfolding push_to mark_skipped RowsOf skipped_row
  push_to-Settles n (err e) w = mark_failed_attempt-Settles e none w w refl
  push_to-Settles n (ok []) w =
      rw marks (is_skipped (set_row-All _ d.id _ (λ r. refl) w.deliveries) refl)
  push_to-Settles n (ok (sub ∷ subs)) w = push_done-Settles _ w

  attempt_email-Settles : (n : Notification) (w : World) → Settles env d w (attempt_email env d n w)
  unfolding attempt_email
  attempt_email-Settles n w =
      let (html, files, options) =
        email_content (get_attachment env.attachment_ok n.tenant_id n.id w.notifications w.files) in
      email_result-Settles
        (env.send_email n.recipient_email n.title n.body n.link html files options)
        (record w { emailed = w.emailed ++ n.recipient_email ∷ [] }) w refl

  -- An attempt at an email or push delivery always settles its row, if the database takes the
  -- write and auditing is on: as sent, as skipped, as failed with the last of the attempts counted,
  -- or as retrying with one attempt more. An entry is audited for sent and for failed, and none for
  -- the other two.
  pub attempt_delivery-Settles :
      (w : World) → d.channel ≢ Channel.in_app → Settles env d w (attempt_delivery env d w)
  unfolding attempt_delivery attempt_with dispatch attempt_email attempt_push
  attempt_delivery-Settles w h =
      by_result (get env.get_ok d.tenant_id d.notification_id w.notifications)
    where
      by_channel :
          (n : Notification) (c : Channel)
          → c ≢ Channel.in_app
          → Settles env d w (dispatch env c d n w)
      by_channel n Channel.email ne = attempt_email-Settles n w
      by_channel n Channel.push ne =
          push_to-Settles n
            (list_for_user env.subs_ok d.tenant_id d.recipient_user_id w.subscriptions) w
      by_channel n Channel.in_app ne = absurd (ne refl)

      by_result : (res : Result Notification) → Settles env d w (attempt_with env d res w)
      by_result (err e) = mark_failed_attempt-Settles ("load notification: " +++ e) none w w refl
      by_result (ok n) = by_channel n d.channel h
