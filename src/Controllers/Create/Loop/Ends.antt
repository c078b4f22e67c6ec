-- ===== src/Controllers/Create/Loop/Ends.antt =====
-- What a create request ends in, told by the request, the preferences and the configuration.
use mathlib.Core.List.{Memᴰ}
use mathlib.Core.Path.{subst}
use stonesuite_notify.Base.{
  ℕ, ◌≡◌, ◌≢◌, refl, ap, ◌∙◌, inl, inr, ◌⊎◌, String, Bool, true, false, not, ◌&&◌, ◌==◌, eq_iff,
  List, [], ◌∷◌, ◌++◌, map, all, any-mem, Result, ok, err, some, Bool-cases, All, All-impl,
  null_if_empty, arith,
}
use stonesuite_notify.Audit.{Entry}
use stonesuite_notify.Config.{Config, email_configured, email_sendable, push_configured}
use stonesuite_notify.Deliveries.{Channel, DeliveryRow}
use stonesuite_notify.Notifications.{NotificationRow, Notification, scan_notification}
use stonesuite_notify.Preferences.{Preferences}
use stonesuite_notify.Controllers.{Reply, refused, answered, Request, World, Net}
use stonesuite_notify.Controllers.Create.{
  RecipientTarget, CreateRequest, Planned, Accepted, Std, accept, contains_channel, all_external,
}
use stonesuite_notify.Controllers.Create.Plan.{PrefsFor, Plans, Plans-mem, accept-ok}
use stonesuite_notify.Controllers.Create.Loop.{Turn, create_route}
use stonesuite_notify.Controllers.Create.Loop.Queue.{MayReach, Reaches}
use stonesuite_notify.Controllers.Create.Loop.Rows.{
  IsAddressed, Written, AllRefused, Wrote, cannot_reach, create_route-Wrote,
}

-- A delivery by email needs that email was asked for and the preferences allow it, one by push that
-- they allow it and both keys are configured.
pub record IsAllowed (config : Config) (req : CreateRequest) (prefs : Preferences) (d : DeliveryRow)
    : Type 0 where
  pub by_email :
      d.channel ≡ Channel.email → Memᴰ "email" req.channels × (prefs.email_enabled ≡ true)
  pub by_push :
      d.channel ≡ Channel.push
      → (prefs.push_enabled ≡ true)
        × (config.vapid_public_key ≢ "")
        × (config.vapid_private_key ≢ "")

-- A delivery is to a recipient of the request, and allowed by the preferences that count for it.
pub record IsMeant (resolve : String → Result Preferences) (config : Config) (req : CreateRequest)
    (d : DeliveryRow) : Type 0 where
  pub to : RecipientTarget
  pub is_named : Memᴰ to req.recipients
  pub prefs : Preferences
  pub counts : PrefsFor resolve to.user_id prefs
  pub recipient : d.recipient_user_id ≡ null_if_empty to.user_id
  pub allowed : IsAllowed config req prefs d

-- A notification is for a recipient of the request, and of its tenant.
pub record IsNamed (req : CreateRequest) (n : Notification) : Type 0 where
  pub to : RecipientTarget
  pub is_named : Memᴰ to req.recipients
  pub recipient : n.recipient_user_id ≡ to.user_id
  pub address : n.recipient_email ≡ to.email
  pub tenant : n.tenant_id ≡ req.tenant_id

-- What a request that is answered with 201 added.
pub record Created (resolve : String → Result Preferences) (config : Config) (req : CreateRequest)
    (w w' : World) (ns : List Notification) : Type 0 where
  pub some_created : ns ≢ []
  pub named : All (IsNamed req) ns
  pub rows : List NotificationRow
  pub feed : w'.notifications ≡ w.notifications ++ rows
  pub shown : map scan_notification rows ≡ ns
  pub queue_rows : List DeliveryRow
  pub queue : w'.deliveries ≡ w.deliveries ++ queue_rows
  pub meant : All (IsMeant resolve config req) queue_rows
  pub entries : List Entry
  pub trail : w'.audited ≡ w.audited ++ entries
  pub one_each : map (λ (e : Entry). e.resource_id) entries ≡ map (λ (n : Notification). n.id) ns

-- Nobody can be reached: all recipients are external, email was asked for, and there is no sender
-- address, or neither provider of email.
pub record IsUnsendable (config : Config) (req : CreateRequest) : Type 0 where
  pub asked : Memᴰ "email" req.channels
  pub external : All (λ (to : RecipientTarget). to.user_id ≡ "") req.recipients
  pub no_email : (config.email_from ≡ "") ⊎ ((config.resend_api_key ≡ "") × (config.smtp_host ≡ ""))

both : (a b : Bool) → (a && b) ≡ true → (a ≡ true) × (b ≡ true)
both a b h = (ground (arith, h), ground (arith, h))

not_empty : (s : String) → not (s == "") ≡ true → s ≢ ""
not_empty s h e = cc (rw ((eq_iff s "").1 e) at h)

asked_for :
    (channels : List String) → contains_channel channels "email" ≡ true → Memᴰ "email" channels
asked_for channels h =
    let (x, m, same) = any-mem (λ t. t == "email") channels (unfold contains_channel in h) in
    subst (λ s. Memᴰ s channels) ((eq_iff x "email").0 same) m

all_empty :
    (tos : List RecipientTarget)
    → all (λ t. t.user_id == "") tos ≡ true
    → All (λ (to : RecipientTarget). to.user_id ≡ "") tos
all_empty [] h = tt
all_empty (to ∷ tos) h =
    let (a, b) = both (to.user_id == "") (all (λ t. t.user_id == "") tos) h in
    ((eq_iff to.user_id "").0 a, all_empty tos b)

all_external-All :
    (tos : List RecipientTarget)
    → all_external tos ≡ true
    → All (λ (to : RecipientTarget). to.user_id ≡ "") tos
unfolding all_external
all_external-All [] h = tt
all_external-All (to ∷ tos) h = all_empty (to ∷ tos) h

push_configured-keys :
    (config : Config)
    → push_configured config ≡ true
    → (config.vapid_public_key ≢ "") × (config.vapid_private_key ≢ "")
unfolding push_configured
push_configured-keys config h =
    let (a, b) =
      both (not (config.vapid_public_key == "")) (not (config.vapid_private_key == "")) h in
    (not_empty config.vapid_public_key a, not_empty config.vapid_private_key b)

not_sendable :
    (config : Config)
    → email_sendable config ≡ false
    → (config.email_from ≡ "") ⊎ ((config.resend_api_key ≡ "") × (config.smtp_host ≡ ""))
unfolding email_sendable email_configured
not_sendable config h = elim (Bool-cases (config.email_from == "")) [
  | inl e ↦ inl ((eq_iff config.email_from "").0 e)
  | inr e ↦ elim (Bool-cases (config.resend_api_key == "")) [
    | inr k ↦ cc (rw (e, k) at h)
    | inl k ↦ elim (Bool-cases (config.smtp_host == "")) [
      | inr l ↦ cc (rw (e, k, l) at h)
      | inl l ↦ inr ((eq_iff config.resend_api_key "").0 k, (eq_iff config.smtp_host "").0 l)
    ]
  ]
]

module _ (config : Config) (req : CreateRequest) where
  MayReach-IsAllowed :
      (prefs : Preferences) (d : DeliveryRow)
      → MayReach config (contains_channel req.channels "email") prefs d
      → IsAllowed config req prefs d
  MayReach-IsAllowed prefs d h = record {
    by_email = λ e.
        let (asked, enabled) =
          both (contains_channel req.channels "email") prefs.email_enabled (h.by_email e) in
        (asked_for req.channels asked, enabled);
    by_push = λ e.
        let (enabled, keys) = both prefs.push_enabled (push_configured config) (h.by_push e) in
        let (public, private) = push_configured-keys config keys in (enabled, public, private);
  }

  cannot_reach-IsUnsendable :
      (net : Net) (r : Request) → cannot_reach net config req r ≡ true → IsUnsendable config req
  cannot_reach-IsUnsendable net r h =
      let (a, b, c) =
        three (contains_channel req.channels "email") (all_external req.recipients)
          (email_sendable config) h in
      record {
        asked = asked_for req.channels a;
        external = all_external-All req.recipients b;
        no_email = not_sendable config c;
      }
    where
      three : (a b c : Bool) → (a && b && not c) ≡ true → (a ≡ true) × (b ≡ true) × (c ≡ false)
      three a b c k = (ground (arith, k), ground (arith, k), ground (arith, k))

module _ (net : Net) (config : Config) (resolve : String → Result Preferences) (turns : ℕ → Turn)
    (req : CreateRequest) (r : Request) where
  Written-Created :
      (a : Accepted) (w w' : World) (ns : List Notification)
      → Plans resolve req req.recipients a.planned
      → ns ≢ []
      → Written config (contains_channel req.channels "email") a.planned w w' ns
      → Created resolve config req w w' ns
  Written-Created a w w' ns plans some_created h = record {
    some_created = some_created;
    named = All-impl _ _ named ns h.addressed;
    rows = h.rows;
    feed = h.feed;
    shown = h.shown;
    queue_rows = h.queue_rows;
    queue = h.queue;
    meant = All-impl _ _ meant h.queue_rows h.reached;
    entries = h.entries;
    trail = h.trail;
    one_each = h.one_each;
  }
    where
      named :
          (n : Notification) → ((p : Planned) × Memᴰ p a.planned × IsAddressed p n) → IsNamed req n
      named n (p, m, i) =
          let (to, k, f) = Plans-mem resolve req req.recipients a.planned p plans m in
          record {
            to = to;
            is_named = k;
            recipient = i.recipient ∙ f.recipient;
            address = i.address ∙ f.address;
            tenant = i.tenant ∙ f.tenant;
          }

      meant :
          (d : DeliveryRow)
          → ((p : Planned) × Memᴰ p a.planned
              × Reaches config
                  (contains_channel req.channels "email")
                  p.prefs
                  p.input.recipient_user_id
                  d)
          → IsMeant resolve config req d
      meant d (p, m, reaches) =
          let (to, k, f) = Plans-mem resolve req req.recipients a.planned p plans m in
          record {
            to = to;
            is_named = k;
            prefs = p.prefs;
            counts = f.prefs;
            recipient = reaches.1 ∙ ap null_if_empty f.recipient;
            allowed = MayReach-IsAllowed config req p.prefs d reaches.0;
          }

  -- What a create request ends in.
  abbrev pub EndsIn : Result Accepted → World → World × Reply (List Notification) → Type 0
  EndsIn (err e) w (w', refused status message) = (w' ≡ w) × (status ≡ 400) × (message ≡ e)
  EndsIn (ok a) w (w', refused status message) =
      (w' ≡ w)
      × (((status ≡ 503) × IsUnsendable config req)
          ⊎ ((status ≡ 500) × AllRefused net config req r turns 0 a.planned))
  EndsIn (ok a) w (w', answered status ns) = (status ≡ 201) × Created resolve config req w w' ns
  EndsIn (err e) w (w', answered status ns) = ⊥

  Wrote-EndsIn :
      (accepted : Result Accepted) (w : World) (end : World × Reply (List Notification))
      → ((a : Accepted) → accepted ≡ ok a → Plans resolve req req.recipients a.planned)
      → Wrote net config req r turns accepted w end
      → EndsIn accepted w end
  Wrote-EndsIn (err e) w (w', refused status message) plans h = h
  Wrote-EndsIn (ok a) w (w', refused status message) plans (same, inl (s, cannot)) =
      (same, inl (s, cannot_reach-IsUnsendable config req net r cannot))
  Wrote-EndsIn (ok a) w (w', refused status message) plans (same, inr h) = (same, inr h)
  Wrote-EndsIn (ok a) w (w', answered status ns) plans (s, some_created, h) =
      (s, Written-Created a w w' ns (plans a refl) some_created h)
  Wrote-EndsIn (err e) w (w', answered status ns) plans h = absurd h

-- A create request that is refused changes nothing, and it is refused only with 400 and the message
-- of `accept`, if that does not accept it; with 503, if all its recipients are external, email was
-- asked for, and no sender address or no provider of email is configured; or with 500, if the
-- database refuses the row of every recipient. Any other is answered with 201 and the notifications
-- that were added to the feed, at least one. Each is for a recipient of the request and of its
-- tenant, and has its entry in the audit trail. Every delivery that was queued is for a recipient
-- of the request: by email only if the request asks for email and the recipient's preferences allow
-- it, by push only if they allow it and both keys are configured. The preferences are those that
-- the store answers for a user, every channel if it fails, and email only for a recipient who is no
-- user. This holds whichever statements the database refuses.
pub create_route-EndsIn :
    (net : Net) (config : Config) (std : Std) (r : Request) (resolve : String → Result Preferences)
    (turns : ℕ → Turn) (req : CreateRequest) (w : World)
    → EndsIn net config resolve turns req r
        (accept std resolve req)
        w
        (create_route net config std r resolve turns (some req) w)
create_route-EndsIn net config std r resolve turns req w =
    Wrote-EndsIn net config resolve turns req r (accept std resolve req) w _
      (λ a e. (accept-ok std resolve req e).1)
      (create_route-Wrote net config std r resolve turns req w)
