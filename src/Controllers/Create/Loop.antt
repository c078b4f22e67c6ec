-- ===== src/Controllers/Create/Loop.antt =====
-- controllers/notifications.go, Create: the writes, one recipient after the other.
pub mod Ends
pub mod Queue
pub mod Rows
use stonesuite_notify.Base.{
  ℕ, zero, suc, ◌+◌, String, Bool, true, false, not, ◌&&◌, ◌==◌, Option, none, some, List, [], ◌∷◌,
  ◌++◌, if◌then◌else◌, Result, ok, err,
}
use stonesuite_notify.Base.Json.{Json, Fields}
use stonesuite_notify.Audit.{Entry}
use stonesuite_notify.Config.{Config, email_sendable, push_configured}
use stonesuite_notify.Deliveries
use stonesuite_notify.Deliveries.{Channel, Status, DeliveryRow, Delivery, enqueue}
use stonesuite_notify.Notifications.{NotificationRow, Notification, create}
use stonesuite_notify.Notifications.Attachments.{AttachmentInput, Files, save_attachment}
use stonesuite_notify.Preferences.{Preferences}
use stonesuite_notify.Controllers.{
  Reply, refused, answered, Request, World, Net, record_audit, no_entry,
}
use stonesuite_notify.Controllers.Create.{
  CreateRequest, Planned, Accepted, Std, accept, contains_channel, all_external,
}

-- What the database does for one recipient: which statements it executes, the ids and the time
-- that it generates.
pub record Turn : Type 0 where
  pub create_ok : Bool
  pub id : String
  pub now : ℕ
  pub attachment_refused : Option String
  pub queue_ok : Channel → Bool
  pub queue_id : Channel → String

abbrev queued : World → Result (List DeliveryRow × Delivery) → World
queued w (ok p) = record w { deliveries = p.0 }
queued w (err e) = w

abbrev pub in_app_status : Bool → Status
in_app_status enabled = if enabled then Status.sent else Status.skipped

module _ (net : Net) (config : Config) (req : CreateRequest) (r : Request) where
  -- A failure is logged only.
  unfoldable pub enqueue_one : Turn → Notification → Channel → Status → World → World
  enqueue_one t n channel status w = queued w (
      enqueue (t.queue_ok channel) (t.queue_id channel) t.now n.id n.tenant_id n.recipient_user_id
        channel status w.deliveries)

  unfoldable pub enqueue_deliveries : Turn → Notification → Preferences → Bool → World → World
  unfolding enqueue_one
  enqueue_deliveries t n prefs wants_email w =
      let w1 = enqueue_one t n Channel.in_app (in_app_status prefs.in_app_enabled) w in
      let w2 =
        if wants_email && prefs.email_enabled
        then enqueue_one t n Channel.email Status.pending w1
        else w1 in
      if prefs.push_enabled && push_configured config
      then enqueue_one t n Channel.push Status.pending w2
      else w2

  unfoldable pub created_entry : Notification → Preferences → Bool → Entry
  created_entry n prefs wants_email = record no_entry {
    tenant_id = n.tenant_id;
    actor_user_id = req.actor_user_id;
    actor_type = "service";
    action = "notification.created";
    resource = "notification";
    resource_id = n.id;
    metadata = some (
        Json.obj (
          Fields.field "emailEnabled" (Json.boolean prefs.email_enabled) (
            Fields.field "emailRequested" (Json.boolean wants_email) (
              Fields.field "eventType" (Json.string n.event_type) (
                Fields.field "pushEnabled" (Json.boolean prefs.push_enabled) (
                  Fields.field "recipientEmail" (Json.string n.recipient_email) (
                    Fields.field "recipientUserId" (Json.string n.recipient_user_id) (
                      Fields.field "resource" (Json.string n.resource) (
                        Fields.field "resourceId" (Json.string n.resource_id) (
                          Fields.field "visibleInApp" (Json.boolean n.visible_in_app)
                            Fields.end))))))))));
  }

  abbrev saved : World → Result Files → World
  saved w (ok files) = record w { files = files }
  saved w (err e) = w

  unfoldable pub save_files : Turn → Notification → Option AttachmentInput → Bool → World → World
  save_files t n none wanted w = w
  save_files t n (some a) wanted w =
      if wanted then saved w (save_attachment t.attachment_refused n.id a w.files) else w

  abbrev pub after_create :
      Turn
      → Option AttachmentInput
      → Bool
      → Preferences
      → World
      → Result (List NotificationRow × Notification)
      → World × List Notification
  after_create t attachment wants_email prefs w (err e) = (w, [])
  after_create t attachment wants_email prefs w (ok (table, n)) = (
    record_audit net r (created_entry n prefs wants_email) (
        enqueue_deliveries t n prefs wants_email (
          save_files t n attachment (wants_email && prefs.email_enabled)
            (record w { notifications = table }))),
    n ∷ [],
  )

  -- One turn of the loop.
  unfoldable pub create_one :
      Turn → Option AttachmentInput → Bool → Planned → World → World × List Notification
  unfolding enqueue_deliveries created_entry save_files record_audit
  create_one t attachment wants_email p w =
      after_create t attachment wants_email p.prefs w
        (create t.create_ok t.id t.now p.input w.notifications)

  -- The turns from number `i` on.
  unfoldable pub create_all :
      (ℕ → Turn)
      → Option AttachmentInput
      → Bool
      → ℕ
      → List Planned
      → World
      → World × List Notification
  unfolding create_one
  create_all turns attachment wants_email i [] w = (w, [])
  create_all turns attachment wants_email i (p ∷ rest) w =
      let one = create_one (turns i) attachment wants_email p w in
      let later = create_all turns attachment wants_email (suc i) rest one.0 in
      (later.0, one.1 ++ later.1)

  abbrev pub created : World × List Notification → World × Reply (List Notification)
  created (w, []) = (w, refused 500 "Failed to create notification.")
  created (w, n ∷ ns) = (w, answered 201 (n ∷ ns))

  abbrev pub write_all : (ℕ → Turn) → World → Result Accepted → World × Reply (List Notification)
  write_all turns w (err e) = (w, refused 400 e)
  write_all turns w (ok a) =
      let wants_email = contains_channel req.channels "email" in
      if wants_email && all_external req.recipients && not (email_sendable config)
      then (w, refused 503 "Email delivery is not configured on the notify service.")
      else created (create_all turns a.attachment wants_email 0 a.planned w)

-- `body` is the decoded request, if it could be decoded.
unfoldable pub create_route :
    Net
    → Config
    → Std
    → Request
    → (String → Result Preferences)
    → (ℕ → Turn)
    → Option CreateRequest
    → World
    → World × Reply (List Notification)
unfolding accept create_all
create_route net config std r resolve turns none w = (w, refused 400 "Invalid request body.")
create_route net config std r resolve turns (some req) w =
    write_all net config req r turns w (accept std resolve req)
