-- ===== src/Tests/Events.antt =====
-- Tests of the email events: a bounce of one email, delivered twice by the provider.
use mathlib.Core.List.{Permᴰ}
use stonesuite_notify.Base.{
  ◌∙◌, ◌≡◌, ◌≢◌, refl, sym, ap, String, Bool, false, List, [], ◌∷◌, map, ok, none, some, Result,
}
use stonesuite_notify.Deliveries.{DeliveryRow, Channel, Status, new_row}
use stonesuite_notify.Notifications.{NotificationRow}
use stonesuite_notify.EmailEvents.{
  status_for_event, rank, advance, status_bounced, status_delivered, status_rank, is_problem,
}
use stonesuite_notify.EmailEvents.Order.{advance_all, advance_all-perm}
use stonesuite_notify.EmailEvents.Store.{
  Event, ApplyResult, Database, Statement, FreshIds, duplicate_event, apply,
}
use stonesuite_notify.EmailEvents.Store.Apply.{apply-replayed}

abbrev email_row : DeliveryRow
email_row = record (new_row "d1" 0 "n1" "t1" "u1" Channel.email Status.sent) {
  provider_email_id = some "e1";
}

abbrev invoice : NotificationRow
invoice = record {
  id = "n1";
  tenant_id = "t1";
  recipient_user_id = none;
  recipient_email = "customer@example.com";
  actor_user_id = some "u2";
  event_type = "invoice.sent";
  resource = "invoice";
  resource_id = "i1";
  title = "Invoice";
  body = "";
  link = "";
  status_link = "";
  status_resource = "";
  visible_in_app = false;
  read_at = none;
  created_at = 0;
}

abbrev before : Database
before = record { deliveries = email_row ∷ []; notifications = invoice ∷ []; email_events = [] }

abbrev bounce : Event
bounce = record {
  svix_id = "s1";
  provider_email_id = "e1";
  type = "email.bounced";
  occurred_at = 5;
  detail = "no such mailbox";
}

abbrev fresh : FreshIds
fresh = record { event_id = "v1"; alert_id = "n2"; alert_delivery_id = "d2" }

abbrev nothing_refused : Statement → Bool
nothing_refused _ = false

abbrev answer : Result ApplyResult × Database
answer = apply nothing_refused fresh 7 7 bounce before

alerts_the_sender : map (λ n. n.recipient_user_id) answer.1.notifications ≡ none ∷ some "u2" ∷ []
unfolding apply new_row status_for_event advance status_rank is_problem
alerts_the_sender = refl

records_the_event : map (λ e. e.svix_id) answer.1.email_events ≡ "s1" ∷ []
unfolding apply new_row status_for_event advance status_rank is_problem
records_the_event = refl

one_event : map (λ e. e.svix_id) answer.1.email_events ≢ []
one_event e = cc (sym records_the_event ∙ e)

wrote : answer.1 ≢ before
wrote e = one_event (ap (λ (d : Database). map (λ x. x.svix_id) d.email_events) e)

apply-replayed_example :
    apply nothing_refused fresh 9 9 bounce answer.1 ≡ (ok duplicate_event, answer.1)
apply-replayed_example =
    apply-replayed nothing_refused nothing_refused fresh fresh 7 9 7 9 bounce before wrote refl refl
      refl

abbrev two_events : List String
two_events = status_delivered ∷ status_bounced ∷ []

abbrev swapped : List String
swapped = status_bounced ∷ status_delivered ∷ []

advance_all-perm_example : rank (advance_all "sent" two_events) ≡ rank (advance_all "sent" swapped)
advance_all-perm_example = advance_all-perm "sent" two_events swapped ∣ Permᴰ.swap refl refl ∣₁
