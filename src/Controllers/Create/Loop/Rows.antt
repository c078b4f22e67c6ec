-- ===== src/Controllers/Create/Loop/Rows.antt =====
-- What a create request writes, whichever statements the database refuses.
use mathlib.Core.List.{Memᴰ}
use stonesuite_notify.Base.{
  ℕ, suc, ◌≡◌, ◌≢◌, refl, ◌⊎◌, sym, ap, ◌∙◌, inl, inr, String, Bool, true, false, not, ◌&&◌, ◌==◌,
  eq_iff, Option, none, some, List, [], ◌∷◌, ◌++◌, map, Result, ok, err, Bool-cases, Result-cases,
  All, All-append, All-impl, null_if_empty, or_empty,
}
use stonesuite_notify.Audit.{Entry}
use stonesuite_notify.Config.{Config, email_sendable}
use stonesuite_notify.Deliveries.{DeliveryRow}
use stonesuite_notify.Notifications.{
  NotificationRow, Notification, create, new_notification, scan_notification,
}
use stonesuite_notify.Notifications.Attachments.{AttachmentInput, save_attachment}
use stonesuite_notify.Preferences.{Preferences}
use stonesuite_notify.Controllers.{
  Reply, refused, answered, Request, World, Net, record_audit, audit_entry,
}
use stonesuite_notify.Controllers.Create.{
  CreateRequest, Planned, Accepted, Std, accept, contains_channel, all_external,
}
use stonesuite_notify.Controllers.Create.Loop.{
  Turn, created_entry, save_files, create_one, create_all, write_all, create_route, created,
}
use stonesuite_notify.Controllers.Create.Loop.Queue.{
  append_assoc, append_none, Reaches, enqueue_deliveries-Adds,
}

-- The notification is for whom the plan says, and of the plan's tenant.
pub record IsAddressed (p : Planned) (n : Notification) : Type 0 where
  pub recipient : n.recipient_user_id ≡ p.input.recipient_user_id
  pub address : n.recipient_email ≡ p.input.recipient_email
  pub tenant : n.tenant_id ≡ p.input.tenant_id

-- What the writes for some recipients did, and the notifications that they created.
pub record Written (config : Config) (wants : Bool) (planned : List Planned) (w w' : World)
    (ns : List Notification) : Type 0 where
  pub rows : List NotificationRow
  pub feed : w'.notifications ≡ w.notifications ++ rows
  pub shown : map scan_notification rows ≡ ns
  pub queue_rows : List DeliveryRow
  pub queue : w'.deliveries ≡ w.deliveries ++ queue_rows
  pub reached :
      All
        (λ d.
          (p : Planned) × Memᴰ p planned × Reaches config wants p.prefs p.input.recipient_user_id d)
        queue_rows
  pub entries : List Entry
  pub trail : w'.audited ≡ w.audited ++ entries
  pub one_each : map (λ (e : Entry). e.resource_id) entries ≡ map (λ (n : Notification). n.id) ns
  pub or_nothing : ns ≡ [] → w' ≡ w
  pub addressed : All (λ n. (p : Planned) × Memᴰ p planned × IsAddressed p n) ns

or_empty-null_if_empty : (s : String) → or_empty (null_if_empty s) ≡ s
or_empty-null_if_empty s = elim (Bool-cases (s == "")) [
  | inl e ↦ rw e (sym ((eq_iff s "").0 e))
  | inr e ↦ rw e refl
]

module _ (net : Net) (config : Config) (req : CreateRequest) (r : Request) where
  save_files-same :
      (t : Turn) (n : Notification) (a : Option AttachmentInput) (b : Bool) (w : World)
      → ((save_files net config req r t n a b w).notifications ≡ w.notifications)
        × ((save_files net config req r t n a b w).deliveries ≡ w.deliveries)
        × ((save_files net config req r t n a b w).audited ≡ w.audited)
  unfolding save_files
  save_files-same t n none b w = (refl, refl, refl)
  save_files-same t n (some a) false w = (refl, refl, refl)
  save_files-same t n (some a) true w =
      elim (Result-cases (save_attachment t.attachment_refused n.id a w.files)) [
        | inl (files, e) ↦ rw e (refl, refl, refl)
        | inr (x, e) ↦ rw e (refl, refl, refl)
      ]

  create_one-Written :
      (t : Turn) (a : Option AttachmentInput) (wants : Bool) (p : Planned) (w : World)
      → Written config wants
          (p ∷ [])
          w
          (create_one net config req r t a wants p w).0
          (create_one net config req r t a wants p w).1
  unfolding create_one create new_notification scan_notification record_audit audit_entry
      created_entry
  create_one-Written t a wants p w = elim (Bool-cases t.create_ok) [
    | inr down ↦ rw down (record {
      rows = [];
      feed = sym (append_none w.notifications);
      shown = refl;
      queue_rows = [];
      queue = sym (append_none w.deliveries);
      reached = tt;
      entries = [];
      trail = sym (append_none w.audited);
      one_each = refl;
      or_nothing = λ e. refl;
      addressed = tt;
    })
    | inl up ↦
        let row = new_notification t.id t.now p.input in
        let n = scan_notification row in
        let w1 : World = record w { notifications = w.notifications ++ row ∷ [] } in
        let w2 = save_files net config req r t n a (wants && p.prefs.email_enabled) w1 in
        let (feed2, queue2, trail2) = save_files-same t n a (wants && p.prefs.email_enabled) w1 in
        let adds = enqueue_deliveries-Adds net config req r t n p.prefs wants w2 in
        let user = or_empty-null_if_empty p.input.recipient_user_id in
        rw up (record {
          rows = row ∷ [];
          feed = adds.same_feed ∙ feed2;
          shown = refl;
          queue_rows = adds.rows;
          queue = adds.grown ∙ ap (λ l. l ++ adds.rows) queue2;
          reached =
              All-impl _ _ (λ d h. (p, Memᴰ.head refl, (h.0, h.1 ∙ ap null_if_empty user)))
                adds.rows adds.hold;
          entries = audit_entry net r (created_entry net config req r n p.prefs wants) ∷ [];
          trail =
              ap (λ l. l ++ audit_entry net r (created_entry net config req r n p.prefs wants) ∷ [])
                (adds.same_trail ∙ trail2);
          one_each = refl;
          or_nothing = λ e. cc;
          addressed =
              ((p, Memᴰ.head refl, record { recipient = user; address = refl; tenant = refl }), tt);
        })
  ]

map_append {ℓ κ} :
    {A : Type ℓ} {B : Type κ} (f : A → B) (xs ys : List A) → map f (xs ++ ys) ≡ map f xs ++ map f ys
map_append f [] ys = refl
map_append f (x ∷ xs) ys = ap (λ l. f x ∷ l) (map_append f xs ys)

left_none {ℓ} : {A : Type ℓ} (xs ys : List A) → xs ++ ys ≡ [] → (xs ≡ []) × (ys ≡ [])
left_none [] ys h = (refl, h)
left_none (x ∷ xs) ys h = cc

chain {ℓ} :
    {A : Type ℓ} (u v w rows rows' : List A)
    → v ≡ u ++ rows
    → w ≡ v ++ rows'
    → w ≡ u ++ (rows ++ rows')
chain u v w rows rows' a b = b ∙ ap (λ l. l ++ rows') a ∙ append_assoc u rows rows'

Written-trans :
    (config : Config) (wants : Bool) (p : Planned) (rest : List Planned) (u v w : World)
    (ns ms : List Notification)
    → Written config wants (p ∷ []) u v ns
    → Written config wants rest v w ms
    → Written config wants (p ∷ rest) u w (ns ++ ms)
Written-trans config wants p rest u v w ns ms a b = record {
  rows = a.rows ++ b.rows;
  feed = chain u.notifications v.notifications w.notifications a.rows b.rows a.feed b.feed;
  shown =
      map_append scan_notification a.rows b.rows
      ∙ ap (λ l. l ++ map scan_notification b.rows) a.shown
      ∙ ap (λ l. ns ++ l) b.shown;
  queue_rows = a.queue_rows ++ b.queue_rows;
  queue = chain u.deliveries v.deliveries w.deliveries a.queue_rows b.queue_rows a.queue b.queue;
  reached =
      All-append _ a.queue_rows b.queue_rows
        (All-impl _ _ (λ d h. (h.0, first_of h.1, h.2)) a.queue_rows a.reached)
        (All-impl _ _ (λ d h. (h.0, Memᴰ.tail h.1, h.2)) b.queue_rows b.reached);
  entries = a.entries ++ b.entries;
  trail = chain u.audited v.audited w.audited a.entries b.entries a.trail b.trail;
  one_each =
      map_append (λ (e : Entry). e.resource_id) a.entries b.entries
      ∙ ap (λ l. l ++ map (λ (e : Entry). e.resource_id) b.entries) a.one_each
      ∙ ap (λ l. map (λ (n : Notification). n.id) ns ++ l) b.one_each
      ∙ sym (map_append (λ (n : Notification). n.id) ns ms);
  or_nothing = λ e.
      let (none_here, none_later) = left_none ns ms e in
      b.or_nothing none_later ∙ a.or_nothing none_here;
  addressed =
      All-append _ ns ms (All-impl _ _ (λ n h. (h.0, first_of h.1, h.2)) ns a.addressed)
        (All-impl _ _ (λ n h. (h.0, Memᴰ.tail h.1, h.2)) ms b.addressed);
}
  where
    first_of : {x : Planned} → Memᴰ x (p ∷ []) → Memᴰ x (p ∷ rest)
    first_of (Memᴰ.head e) = Memᴰ.head e
    first_of (Memᴰ.tail m) = elim m [ ]

module _ (net : Net) (config : Config) (req : CreateRequest) (r : Request) where
  create_all-Written :
      (turns : ℕ → Turn) (a : Option AttachmentInput) (wants : Bool) (i : ℕ)
      (planned : List Planned) (w : World)
      → Written config wants planned w
          (create_all net config req r turns a wants i planned w).0
          (create_all net config req r turns a wants i planned w).1
  unfolding create_all
  create_all-Written turns a wants i [] w = record {
    rows = [];
    feed = sym (append_none w.notifications);
    shown = refl;
    queue_rows = [];
    queue = sym (append_none w.deliveries);
    reached = tt;
    entries = [];
    trail = sym (append_none w.audited);
    one_each = refl;
    or_nothing = λ e. refl;
    addressed = tt;
  }
  create_all-Written turns a wants i (p ∷ rest) w =
      let one = create_one net config req r (turns i) a wants p w in
      Written-trans config wants p rest w one.0 _ one.1 _
        (create_one-Written net config req r (turns i) a wants p w)
        (create_all-Written turns a wants (suc i) rest one.0)

  -- The database refuses every row of the feed, from turn number `i` on.
  abbrev pub AllRefused : (ℕ → Turn) → ℕ → List Planned → Type 0
  AllRefused turns i [] = Unit
  AllRefused turns i (p ∷ rest) = ((turns i).create_ok ≡ false) × AllRefused turns (suc i) rest

  create_one-none :
      (t : Turn) (a : Option AttachmentInput) (wants : Bool) (p : Planned) (w : World)
      → (create_one net config req r t a wants p w).1 ≡ []
      → t.create_ok ≡ false
  unfolding create_one create
  create_one-none t a wants p w = elim (Bool-cases t.create_ok) [
    | inl up ↦ rw up (λ h. cc)
    | inr down ↦ λ h. down
  ]

  create_all-none :
      (turns : ℕ → Turn) (a : Option AttachmentInput) (wants : Bool) (i : ℕ)
      (planned : List Planned) (w : World)
      → (create_all net config req r turns a wants i planned w).1 ≡ []
      → AllRefused turns i planned
  unfolding create_all
  create_all-none turns a wants i [] w h = tt
  create_all-none turns a wants i (p ∷ rest) w h =
      let one = create_one net config req r (turns i) a wants p w in
      let (none_here, none_later) = left_none one.1 _ h in
      (
        create_one-none (turns i) a wants p w none_here,
        create_all-none turns a wants (suc i) rest one.0 none_later,
      )

  -- Email was asked for, all recipients are external, and no email can be sent.
  abbrev pub cannot_reach : Bool
  cannot_reach =
      contains_channel req.channels "email"
      && all_external req.recipients
      && not (email_sendable config)

  -- What a create request ends in.
  abbrev pub Wrote :
      (ℕ → Turn) → Result Accepted → World → World × Reply (List Notification) → Type 0
  Wrote turns (err e) w (w', refused status message) = (w' ≡ w) × (status ≡ 400) × (message ≡ e)
  Wrote turns (ok a) w (w', refused status message) =
      (w' ≡ w)
      × (((status ≡ 503) × (cannot_reach ≡ true)) ⊎ ((status ≡ 500) × AllRefused turns 0 a.planned))
  Wrote turns (ok a) w (w', answered status ns) =
      (status ≡ 201)
      × (ns ≢ [])
      × Written config (contains_channel req.channels "email") a.planned w w' ns
  Wrote turns (err e) w (w', answered status ns) = ⊥

  created-Wrote :
      (turns : ℕ → Turn) (a : Accepted) (w : World) (done : World × List Notification)
      → Written config (contains_channel req.channels "email") a.planned w done.0 done.1
      → (done.1 ≡ [] → AllRefused turns 0 a.planned)
      → Wrote turns (ok a) w (created net config req r done)
  created-Wrote turns a w (w', []) h refusals = (h.or_nothing refl, inr (refl, refusals refl))
  created-Wrote turns a w (w', n ∷ ns) h refusals = (refl, λ e. cc, h)

  write_all-Wrote :
      (turns : ℕ → Turn) (accepted : Result Accepted) (w : World)
      → Wrote turns accepted w (write_all net config req r turns w accepted)
  write_all-Wrote turns (err e) w = (refl, refl, refl)
  write_all-Wrote turns (ok a) w =
      let wants = contains_channel req.channels "email" in
      elim (Bool-cases cannot_reach) [
        | inl cannot ↦ rw cannot (refl, inl (refl, cannot))
        | inr can ↦ rw can (
            created-Wrote turns a w _ (create_all-Written turns a.attachment wants 0 a.planned w)
              (create_all-none turns a.attachment wants 0 a.planned w))
      ]

-- A create request ends in a refusal that changes nothing, or in the writes of what was planned.
pub create_route-Wrote :
    (net : Net) (config : Config) (std : Std) (r : Request) (resolve : String → Result Preferences)
    (turns : ℕ → Turn) (req : CreateRequest) (w : World)
    → Wrote net config req r turns
        (accept std resolve req)
        w
        (create_route net config std r resolve turns (some req) w)
unfolding create_route
create_route-Wrote net config std r resolve turns req w =
    write_all-Wrote net config req r turns (accept std resolve req) w
