-- ===== src/Tests/Send.antt =====
-- Tests of the workers: a push delivery to two devices, one of which fails the first time.
use mathlib.Core.List.{Memᴰ}
use stonesuite_notify.Base.{
  ◌≡◌, ◌≢◌, refl, inl, true, false, List, [], ◌∷◌, map, All, if◌then◌else◌, ◌==◌, ok, err, none,
  some, IsKeyed, eq_iff, length,
}
use stonesuite_notify.Base.Json.{text_field}
use stonesuite_notify.Deliveries.{
  DeliveryRow, Delivery, Channel, Status, new_row, scan_delivery, claim_pending, mark_retrying,
}
use stonesuite_notify.Notifications.{NotificationRow, Notification, get}
use stonesuite_notify.Pushsubs.{Subscription, list_for_user}
use stonesuite_notify.Workers.{Env, World, PushRun, attempt_delivery, push_all, consumer_poll_once}
use stonesuite_notify.Workers.Response.{
  Outcomes, lookup, put, encode_push_response, decode_push_response,
}
use stonesuite_notify.Workers.Push.{IsDelivered, push_all-never_twice}
use stonesuite_notify.Workers.Outcome.{Settles, attempt_delivery-Settles}

abbrev phone : Subscription
phone = record {
  id = "s1";
  tenant_id = "t1";
  user_id = "u1";
  endpoint = "phone";
  p256dh = "";
  auth = "";
  created_at = 0;
}

abbrev laptop : Subscription
laptop = record phone { id = "s2"; endpoint = "laptop" }

abbrev approved : NotificationRow
approved = record {
  id = "n1";
  tenant_id = "t1";
  recipient_user_id = some "u1";
  recipient_email = "";
  actor_user_id = none;
  event_type = "invoice.approved";
  resource = "invoice";
  resource_id = "i1";
  title = "Approved";
  body = "";
  link = "";
  status_link = "";
  status_resource = "";
  visible_in_app = true;
  read_at = none;
  created_at = 1;
}

-- The push service takes everything but what is for the laptop.
abbrev laptop_off : Env
laptop_off = record {
  get_ok = true;
  attachment_ok = true;
  subs_ok = true;
  delete_ok = true;
  mark_ok = true;
  clock = 10;
  now = 10;
  audited = true;
  send_email = λ to title body link html files options. ok "e1";
  send_push = λ endpoint p256dh auth title body link.
      if endpoint == "laptop" then err "timeout" else ok false;
}

abbrev push_row : DeliveryRow
push_row = new_row "d1" 0 "n1" "t1" "u1" Channel.push Status.pending

abbrev world : World
world = record {
  deliveries = push_row ∷ [];
  notifications = approved ∷ [];
  files = record { attachments = []; files = [] };
  subscriptions = phone ∷ laptop ∷ [];
  audit_log = [];
  emailed = [];
  pushed = [];
}

abbrev once : World
once = consumer_poll_once (λ _. laptop_off) true (λ _. false) 10 world

pushes_both : once.pushed ≡ "s1" ∷ "s2" ∷ []
unfolding consumer_poll_once new_row claim_pending get list_for_user lookup decode_push_response
    mark_retrying
pushes_both = refl

is_retried : map (λ r. r.status) once.deliveries ≡ Status.retrying ∷ []
unfolding consumer_poll_once new_row claim_pending get list_for_user lookup decode_push_response
    mark_retrying
is_retried = refl

audits_nothing : length once.audit_log ≡ 0
unfolding consumer_poll_once new_row claim_pending get list_for_user lookup decode_push_response
    mark_retrying
audits_nothing = refl

abbrev delivery : Delivery
delivery = scan_delivery push_row

is_push : delivery.channel ≢ Channel.in_app
unfolding scan_delivery new_row
is_push e = cc

attempt_delivery-Settles_example :
    Settles laptop_off delivery world (attempt_delivery laptop_off delivery world)
attempt_delivery-Settles_example =
    attempt_delivery-Settles laptop_off refl refl delivery world is_push

abbrev notification : Notification
notification = record {
  id = "n1";
  tenant_id = "t1";
  recipient_user_id = "u1";
  recipient_email = "";
  actor_user_id = "";
  event_type = "invoice.approved";
  resource = "invoice";
  resource_id = "i1";
  title = "Approved";
  body = "";
  link = "";
  visible_in_app = true;
  read_at = none;
  created_at = 1;
}

abbrev both : List Subscription
both = phone ∷ laptop ∷ []

abbrev start : PushRun
start = record { outcomes = []; all_sent = true; subscriptions = both; pushed = [] }

abbrev first_try : PushRun
first_try = push_all laptop_off delivery notification [] both start

abbrev second_try : PushRun
second_try =
    push_all laptop_off delivery notification
      (decode_push_response (some (encode_push_response first_try.outcomes))) both start

second_pushes_one : second_try.pushed ≡ "s2" ∷ []
unfolding push_all decode_push_response encode_push_response lookup put text_field
second_pushes_one = refl

both-IsKeyed : IsKeyed (λ s. s.id) both
both-IsKeyed = (((λ e. cc ((eq_iff "s2" "s1").1 e)), tt), (tt, tt))

phone-IsDelivered : IsDelivered laptop_off delivery notification [] phone
unfolding IsDelivered
phone-IsDelivered = inl refl

push_all-never_twice_example : All (λ id. id ≢ "s1") second_try.pushed
push_all-never_twice_example =
    push_all-never_twice laptop_off laptop_off delivery delivery notification notification [] both
      both start start phone both-IsKeyed (Memᴰ.head refl) phone-IsDelivered refl

abbrev failed_one : Outcomes
failed_one = ("s1", record { status = "failed"; error = "timeout" }) ∷ []
