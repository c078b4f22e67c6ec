-- ===== src/Workers.antt =====
-- workers/dispatch.go, workers/consumer.go and workers/retry.go: one attempt at a claimed delivery,
-- and one poll of each worker. The modelled state is the tables, the audit log, and what was handed
-- to the email and push providers.
pub mod Response
pub mod Push
pub mod Outcome
use stonesuite_notify.Base.{
  ℕ, suc, ◌+◌, String, Bool, true, false, not, ◌&&◌, ◌==◌, Option, none, some, List, [], ◌∷◌, ◌++◌,
  map, if◌then◌else◌, leb, length, Result, ok, err, ◌*◌,
}
use stonesuite_notify.Base.Int.{ℤ, pos}
use stonesuite_notify.Base.Json.{Json, Fields}
use stonesuite_notify.Base.Text.{◌+++◌}
use stonesuite_notify.Deliveries
use stonesuite_notify.Deliveries.{
  DeliveryRow, Delivery, mark_sent, mark_skipped, mark_retrying, max_attempts_allowed,
  claim_pending, claim_due, minute, channel_text,
}
use stonesuite_notify.Notifications.{NotificationRow, Notification, get}
use stonesuite_notify.Notifications.Attachments
use stonesuite_notify.Notifications.Attachments.{
  AttachmentInput, AttachmentFile, Files, no_options, get_attachment,
}
use stonesuite_notify.Pushsubs
use stonesuite_notify.Pushsubs.{Subscription}
use stonesuite_notify.Workers.Response.{
  EndpointOutcome, Outcomes, lookup, put, encode_push_response, decode_push_response,
}

-- An entry of the audit log, as the workers write it.
pub record Entry : Type 0 where
  pub tenant_id : String
  pub actor_type : String
  pub action : String
  pub resource : String
  pub resource_id : String
  pub metadata : Json

pub record World : Type 0 where
  pub deliveries : List DeliveryRow
  pub notifications : List NotificationRow
  pub files : Files
  pub subscriptions : List Subscription
  pub audit_log : List Entry
  -- The addresses that SendEmail was called with, and the subscriptions' ids that SendPush was.
  pub emailed : List String
  pub pushed : List String

-- What an attempt meets: which store calls succeed, the clocks, whether auditing is on, and the two
-- providers.
pub record Env : Type 0 where
  pub get_ok : Bool
  pub attachment_ok : Bool
  pub subs_ok : Bool
  pub delete_ok : Bool
  pub mark_ok : Bool
  pub clock : ℕ
  pub now : ℕ
  pub audited : Bool
  pub send_email :
      String
      → String
      → String
      → String
      → String
      → List AttachmentFile
      → Attachments.EmailOptions
      → Result String
  pub send_push : String → String → String → String → String → String → Result Bool

-- A failed write is logged only.
abbrev pub written : World → Result (List DeliveryRow) → World
written w (ok table) = record w { deliveries = table }
written w (err _) = w

abbrev first_file : AttachmentInput → List AttachmentFile
first_file a =
    if a.file_name == ""
    then []
    else record { file_name = a.file_name; content_type = a.content_type; content = a.content } ∷ []

-- What the email carries: without an attachment row, or when it cannot be read, nothing.
unfoldable pub email_content :
    Result (Option AttachmentInput) → String × List AttachmentFile × Attachments.EmailOptions
email_content (ok (some a)) = (a.email_body_html, first_file a ++ a.more_files, a.email_options)
email_content _ = ("", [], no_options)

-- The loop's variables, and the state that it changes.
pub record PushRun : Type 0 where
  pub outcomes : Outcomes
  pub all_sent : Bool
  pub subscriptions : List Subscription
  pub pushed : List String

abbrev pub table_or : List Subscription → Result (List Subscription) → List Subscription
table_or before (ok table) = table
table_or before (err _) = before

-- The earlier outcome of a subscription, if it was sent to.
abbrev pub sent_before : Option EndpointOutcome → Option EndpointOutcome
sent_before none = none
sent_before (some prev) = if prev.status == "sent" then some prev else none

abbrev pub skipped_reason : Json
skipped_reason = Json.obj (Fields.field "reason" (Json.string "no push subscriptions") Fields.end)

module _ (env : Env) where
  -- The fields are in the order of their keys; `extra` stands between "channel" and
  -- "recipientUserId".
  unfoldable pub entry_of : Delivery → String → (Fields → Fields) → Entry
  entry_of d action extra = record {
    tenant_id = d.tenant_id;
    actor_type = "worker";
    action = action;
    resource = "delivery";
    resource_id = d.id;
    metadata = Json.obj (
        Fields.field "attempts" (Json.number (pos (d.attempts + 1))) (
          Fields.field "channel" (Json.string (channel_text d.channel))
            (extra (Fields.field "recipientUserId" (Json.string d.recipient_user_id) Fields.end))));
  }

  unfoldable pub record_outcome : Delivery → String → (Fields → Fields) → World → World
  unfolding entry_of
  record_outcome d action extra w =
      if env.audited
      then record w { audit_log = w.audit_log ++ entry_of d action extra ∷ [] }
      else w

  unfoldable pub mark_failed_attempt : Delivery → String → Option Json → World → World
  unfolding record_outcome
  mark_failed_attempt d last_error provider_response w =
      let attempts = d.attempts + 1 in
      let w' = written w (
        mark_retrying env.mark_ok d.id attempts last_error provider_response env.clock env.now
          w.deliveries) in
      if leb max_attempts_allowed attempts
      then record_outcome d "delivery.failed" (Fields.field "lastError" (Json.string last_error)) w'
      else w'

  unfoldable pub email_result : Delivery → Result String → World → World
  unfolding mark_failed_attempt record_outcome
  email_result d (err e) w = mark_failed_attempt d e none w
  email_result d (ok provider_id) w =
      record_outcome d "delivery.sent" (λ fs. fs)
        (written w (mark_sent env.mark_ok d.id none provider_id env.now w.deliveries))

  unfoldable pub attempt_email : Delivery → Notification → World → World
  unfolding email_content email_result
  attempt_email d n w =
      let (html, files, options) =
        email_content (get_attachment env.attachment_ok n.tenant_id n.id w.notifications w.files) in
      email_result d (env.send_email n.recipient_email n.title n.body n.link html files options)
        (record w { emailed = w.emailed ++ n.recipient_email ∷ [] })

  -- What follows a call of SendPush for a subscription.
  unfoldable pub push_result : Delivery → Subscription → Result Bool → PushRun → PushRun
  push_result d sub (err e) run = record run {
    outcomes = put sub.id (record { status = "failed"; error = e }) run.outcomes;
    all_sent = false;
  }
  push_result d sub (ok true) run = record run {
    subscriptions = table_or run.subscriptions (
        Pushsubs.delete env.delete_ok d.tenant_id d.recipient_user_id sub.endpoint
          run.subscriptions);
  }
  push_result d sub (ok false) run = record run {
    outcomes = put sub.id (record { status = "sent"; error = "" }) run.outcomes;
  }

  unfoldable pub push_one :
      Delivery → Notification → Subscription → Option EndpointOutcome → PushRun → PushRun
  unfolding push_result
  push_one d n sub (some prev) run = record run { outcomes = put sub.id prev run.outcomes }
  push_one d n sub none run =
      push_result d sub (env.send_push sub.endpoint sub.p256dh sub.auth n.title n.body n.link)
        (record run { pushed = run.pushed ++ sub.id ∷ [] })

  unfoldable pub push_all :
      Delivery → Notification → Outcomes → List Subscription → PushRun → PushRun
  unfolding push_one
  push_all d n prior [] run = run
  push_all d n prior (sub ∷ subs) run =
      push_all d n prior subs (push_one d n sub (sent_before (lookup sub.id prior)) run)

  unfoldable pub push_done : Delivery → PushRun → World → World
  unfolding mark_failed_attempt record_outcome
  push_done d run w =
      let w' = record w { subscriptions = run.subscriptions; pushed = run.pushed } in
      let response = some (encode_push_response run.outcomes) in
      if run.all_sent
      then record_outcome d "delivery.sent"
          (Fields.field "endpoints" (Json.number (pos (length run.outcomes))))
          (written w' (mark_sent env.mark_ok d.id response "" env.now w.deliveries))
      else mark_failed_attempt d "one or more push endpoints failed" response w'

  unfoldable pub push_to : Delivery → Notification → Result (List Subscription) → World → World
  unfolding mark_failed_attempt push_all push_done
  push_to d n (err e) w = mark_failed_attempt d e none w
  push_to d n (ok []) w =
      written w (mark_skipped env.mark_ok d.id (some skipped_reason) env.now w.deliveries)
  push_to d n (ok (sub ∷ subs)) w =
      push_done d
        (push_all d n (decode_push_response d.provider_response) (sub ∷ subs) (record {
          outcomes = [];
          all_sent = true;
          subscriptions = w.subscriptions;
          pushed = w.pushed;
        }))
        w

  unfoldable pub attempt_push : Delivery → Notification → World → World
  unfolding push_to
  attempt_push d n w =
      push_to d n
        (Pushsubs.list_for_user env.subs_ok d.tenant_id d.recipient_user_id w.subscriptions) w

  -- The switch on the channel; the default branch logs only.
  unfoldable pub dispatch : Deliveries.Channel → Delivery → Notification → World → World
  unfolding attempt_email attempt_push
  dispatch Deliveries.Channel.email d n w = attempt_email d n w
  dispatch Deliveries.Channel.push d n w = attempt_push d n w
  dispatch Deliveries.Channel.in_app d n w = w

  unfoldable pub attempt_with : Delivery → Result Notification → World → World
  unfolding dispatch mark_failed_attempt
  attempt_with d (err e) w = mark_failed_attempt d ("load notification: " +++ e) none w
  attempt_with d (ok n) w = dispatch d.channel d n w

  unfoldable pub attempt_delivery : Delivery → World → World
  unfolding attempt_with
  attempt_delivery d w =
      attempt_with d (get env.get_ok d.tenant_id d.notification_id w.notifications) w

-- The loop over what a poll claimed; each attempt has its own environment.
unfoldable pub attempt_each : (Delivery → Env) → List Delivery → World → World
unfolding attempt_delivery
attempt_each env_of [] w = w
attempt_each env_of (d ∷ ds) w = attempt_each env_of ds (attempt_delivery (env_of d) d w)

abbrev pub delivery_batch_size : ℕ
delivery_batch_size = 20

abbrev pub stale_processing_threshold : ℕ
stale_processing_threshold = 5 * minute

unfoldable pub after_claim :
    (Delivery → Env) → World → Result (List DeliveryRow × List Delivery) → World
unfolding attempt_each
after_claim env_of w (err _) = w
after_claim env_of w (ok (table, claimed)) =
    attempt_each env_of claimed (record w { deliveries = table })

-- `pollOnce` of the queue consumer and of the retry worker.
unfoldable pub consumer_poll_once : (Delivery → Env) → Bool → (String → Bool) → ℕ → World → World
unfolding after_claim
consumer_poll_once env_of up locked now w =
    after_claim env_of w (claim_pending up locked delivery_batch_size now w.deliveries)

unfoldable pub retry_poll_once : (Delivery → Env) → Bool → (String → Bool) → ℕ → ℕ → World → World
unfolding after_claim
retry_poll_once env_of up locked clock now w =
    after_claim env_of w
      (claim_due up locked delivery_batch_size stale_processing_threshold clock now w.deliveries)
