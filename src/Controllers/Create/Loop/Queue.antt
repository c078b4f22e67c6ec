-- ===== src/Controllers/Create/Loop/Queue.antt =====
-- The deliveries that are queued for one notification: to whom, and by which channels.
use stonesuite_notify.Base.{
  ◌≡◌, refl, sym, ap, ◌∙◌, inl, inr, String, Bool, true, false, ◌&&◌, List, [], ◌∷◌, ◌++◌,
  if◌then◌else◌, Bool-cases, All, All-append, null_if_empty,
}
use stonesuite_notify.Config.{Config, push_configured}
use stonesuite_notify.Deliveries.{Channel, Status, DeliveryRow, enqueue, new_row}
use stonesuite_notify.Notifications.{Notification}
use stonesuite_notify.Preferences.{Preferences}
use stonesuite_notify.Controllers.{Request, World, Net}
use stonesuite_notify.Controllers.Create.{CreateRequest}
use stonesuite_notify.Controllers.Create.Loop.{Turn, in_app_status, enqueue_one, enqueue_deliveries}

pub append_assoc {ℓ} : {A : Type ℓ} (xs ys zs : List A) → (xs ++ ys) ++ zs ≡ xs ++ (ys ++ zs)
append_assoc [] ys zs = refl
append_assoc (x ∷ xs) ys zs = ap (λ l. x ∷ l) (append_assoc xs ys zs)

pub append_none {ℓ} : {A : Type ℓ} (xs : List A) → xs ++ [] ≡ xs
append_none [] = refl
append_none (x ∷ xs) = ap (λ l. x ∷ l) (append_none xs)

-- The queue got rows of which `P` holds, and the feed and the trail are as before.
pub record Adds (P : DeliveryRow → Type 0) (w w' : World) : Type 0 where
  pub rows : List DeliveryRow
  pub grown : w'.deliveries ≡ w.deliveries ++ rows
  pub hold : All P rows
  pub same_feed : w'.notifications ≡ w.notifications
  pub same_trail : w'.audited ≡ w.audited

Adds-refl : (P : DeliveryRow → Type 0) (w : World) → Adds P w w
Adds-refl P w = record {
  rows = [];
  grown = sym (append_none w.deliveries);
  hold = tt;
  same_feed = refl;
  same_trail = refl;
}

Adds-trans : (P : DeliveryRow → Type 0) (u v w : World) → Adds P u v → Adds P v w → Adds P u w
Adds-trans P u v w a b = record {
  rows = a.rows ++ b.rows;
  grown = b.grown ∙ ap (λ l. l ++ b.rows) a.grown ∙ append_assoc u.deliveries a.rows b.rows;
  hold = All-append P a.rows b.rows a.hold b.hold;
  same_feed = b.same_feed ∙ a.same_feed;
  same_trail = b.same_trail ∙ a.same_trail;
}

-- Who may be reached how: email only if it was asked for and is enabled, push only if it is enabled
-- and configured.
pub record MayReach (config : Config) (wants_email : Bool) (prefs : Preferences) (d : DeliveryRow)
    : Type 0 where
  pub by_email : d.channel ≡ Channel.email → (wants_email && prefs.email_enabled) ≡ true
  pub by_push : d.channel ≡ Channel.push → (prefs.push_enabled && push_configured config) ≡ true

if_Adds :
    (P : DeliveryRow → Type 0) (b : Bool) (w w' : World)
    → (b ≡ true → Adds P w w')
    → Adds P w (if b then w' else w)
if_Adds P true w w' f = f refl
if_Adds P false w w' f = Adds-refl P w

-- A delivery to a user that may reach them.
abbrev pub Reaches : Config → Bool → Preferences → String → DeliveryRow → Type 0
Reaches config wants prefs user d =
    MayReach config wants prefs d × (d.recipient_user_id ≡ null_if_empty user)

module _ (net : Net) (config : Config) (req : CreateRequest) (r : Request) where
  enqueue_one-Adds :
      (P : DeliveryRow → Type 0) (t : Turn) (n : Notification) (c : Channel) (s : Status)
      (w : World)
      → P (new_row (t.queue_id c) t.now n.id n.tenant_id n.recipient_user_id c s)
      → Adds P w (enqueue_one net config req r t n c s w)
  unfolding enqueue_one enqueue
  enqueue_one-Adds P t n c s w h = elim (Bool-cases (t.queue_ok c)) [
    | inl up ↦ rw up (record {
      rows = new_row (t.queue_id c) t.now n.id n.tenant_id n.recipient_user_id c s ∷ [];
      grown = refl;
      hold = (h, tt);
      same_feed = refl;
      same_trail = refl;
    })
    | inr down ↦ rw down (Adds-refl P w)
  ]

  pub enqueue_deliveries-Adds :
      (t : Turn) (n : Notification) (prefs : Preferences) (wants : Bool) (w : World)
      → Adds
          (Reaches config wants prefs n.recipient_user_id)
          w
          (enqueue_deliveries net config req r t n prefs wants w)
  unfolding enqueue_deliveries new_row
  enqueue_deliveries-Adds t n prefs wants w =
      let P = Reaches config wants prefs n.recipient_user_id in
      let s = in_app_status prefs.in_app_enabled in
      let w1 = enqueue_one net config req r t n Channel.in_app s w in
      let a1 : Adds P w w1 =
        enqueue_one-Adds P t n Channel.in_app s w
          (record { by_email = λ e. cc; by_push = λ e. cc }, refl) in
      let email = wants && prefs.email_enabled in
      let e2 = enqueue_one net config req r t n Channel.email Status.pending w1 in
      let w2 = if email then e2 else w1 in
      let a2 : Adds P w1 w2 = if_Adds P email w1 e2 (λ allowed.
        enqueue_one-Adds P t n Channel.email Status.pending w1
          (record { by_email = λ e. allowed; by_push = λ e. cc }, refl)) in
      let push = prefs.push_enabled && push_configured config in
      let e3 = enqueue_one net config req r t n Channel.push Status.pending w2 in
      let a3 : Adds P w2 (if push then e3 else w2) = if_Adds P push w2 e3 (λ allowed.
        enqueue_one-Adds P t n Channel.push Status.pending w2
          (record { by_email = λ e. cc; by_push = λ e. allowed }, refl)) in
      Adds-trans P w w1 (if push then e3 else w2) a1
        (Adds-trans P w1 w2 (if push then e3 else w2) a2 a3)
