-- ===== src/Controllers/Webhook/Gated.antt =====
-- What it takes for a webhook to change anything, and which ones the provider is made to retry.
use stonesuite_notify.Base.{
  ◌≤◌, ◌≡◌, ◌≢◌, refl, inl, inr, ◌⊎◌, String, ◌||◌, ◌==◌, ltb, length, Bool-cases, arith,
}
use stonesuite_notify.Base.Text.{rune_count, rune_count-take_runes}
use stonesuite_notify.EmailEvents.Svix.{Verdict, accepted, bad_secret, invalid_signature}
use stonesuite_notify.Inbound.Failure.{Failure, failed}
use stonesuite_notify.Inbound.Process
use stonesuite_notify.Controllers.{Reply, refused, answered}
use stonesuite_notify.Controllers.Webhook.{
  Handler, WebhookCall, World, ResendWebhook, resend_route, judged, verdict_of, raw_detail, detail,
  shortened, max_event_detail_runes, max_webhook_body_bytes,
}

-- A refusal by the caller's fault, or because no secret is set.
abbrev pub IsRefusal : World → World × Reply (Unit {0}) → Type 0
IsRefusal w (w', refused status message) = (w' ≡ w) × ((status ≡ 400) ⊎ (status ≡ 503))
IsRefusal w (w', answered status data') = ⊥

module _ (h : Handler) (c : WebhookCall) (w : World) where
  judged-IsRefusal : (v : Verdict) → v ≢ accepted → IsRefusal w (judged h c v w)
  judged-IsRefusal accepted n = absurd (n refl)
  judged-IsRefusal bad_secret n = (refl, inr refl)
  judged-IsRefusal invalid_signature n = (refl, inl refl)

  -- A webhook whose signature is not accepted is refused, and changes neither the database nor the
  -- queue of files, and calls neither Resend nor the backend.
  pub resend_route-IsRefusal : verdict_of h c ≢ accepted → IsRefusal w (resend_route h c w)
  unfolding resend_route
  resend_route-IsRefusal n = elim (Bool-cases (h.secret == "")) [
    | inl e ↦ rw e (refl, inr refl)
    | inr e ↦ elim (Bool-cases (c.breaks || ltb max_webhook_body_bytes (length c.body))) [
      | inl k ↦ rw (e, k) (refl, inl refl)
      | inr k ↦ rw (e, k) (judged-IsRefusal (verdict_of h c) n)
    ]
  ]

-- The detail that is stored of an event is at most 500 characters long.
pub rune_count-detail : (e : ResendWebhook) → rune_count (detail e) ≤ max_event_detail_runes
unfolding detail
rune_count-detail e = short (raw_detail e.bounce e.suppressed e.failed)
  where
    short : (d : String) → rune_count (shortened d) ≤ max_event_detail_runes
    short d =
        unfold shortened in
        elim (Bool-cases (ltb max_event_detail_runes (rune_count d))) [
          | inl k ↦ rw k (rune_count-take_runes max_event_detail_runes d)
          | inr k ↦ rw k (ground (arith, k))
        ]
