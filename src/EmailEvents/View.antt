-- ===== src/EmailEvents/View.antt =====
-- What the sender and the backend are shown of an email's status.
use mathlib.Core.Path.{subst}
use stonesuite_notify.Base.{
  ℕ, ◌+◌, ◌≤◌, ◌≡◌, refl, sym, ◌⊎◌, inl, inr, String, true, ◌||◌, ◌==◌, Option, none, some, List,
  [], ◌∷◌, ltb, arith, Bool-cases, Option-cases, contains, eq_iff,
}
use stonesuite_notify.Base.Text.{
  rune_count, ◌+++◌, trim_space, rune_count-append, rune_count-take_runes,
}
use stonesuite_notify.EmailEvents.{
  status_rank, status_sent, status_delayed, status_delivered, status_complained, status_bounced,
  status_failed, status_suppressed, state_queued, state_retrying, state_delayed, state_skipped,
  state_unknown, queue_state, derive_state, alert_format, alert_title, format_title, shorten,
  short_recipient, max_alert_recipient_runes,
}

-- The vocabulary of the clients of the status endpoint.
abbrev pub client_states : List String
client_states =
    state_queued ∷ state_retrying ∷ state_delayed ∷ state_skipped ∷ state_unknown ∷ status_sent
    ∷ status_delivered ∷ status_complained ∷ status_bounced ∷ status_failed ∷ status_suppressed ∷ []

pub IsClientState : String → Type 0
IsClientState s = contains s client_states ≡ true

queue_state-IsClientState : (q : String) → IsClientState (queue_state q)
unfolding queue_state IsClientState
queue_state-IsClientState q = elim (Bool-cases (q == "pending" || q == "processing")) [
  | inl e0 ↦ rw e0 refl
  | inr e0 ↦ rw e0 (elim (Bool-cases (q == "sent")) [
    | inl e1 ↦ rw e1 refl
    | inr e1 ↦ rw e1 (elim (Bool-cases (q == "retrying")) [
      | inl e2 ↦ rw e2 refl
      | inr e2 ↦ rw e2 (elim (Bool-cases (q == "failed")) [
        | inl e3 ↦ rw e3 refl
        | inr e3 ↦
            rw e3
              (elim (Bool-cases (q == "skipped")) [ inl e4 ↦ rw e4 refl | inr e4 ↦ rw e4 (refl) ])
      ])
    ])
  ])
]

known-cases :
    (p : String) (r : ℕ)
    → status_rank p ≡ some r
    → (p ≡ status_sent)
      ⊎ ((p ≡ status_delayed)
          ⊎ ((p ≡ status_delivered)
              ⊎ ((p ≡ status_complained)
                  ⊎ ((p ≡ status_bounced) ⊎ ((p ≡ status_failed) ⊎ (p ≡ status_suppressed))))))
unfolding status_rank
known-cases p r h = ground (
  arith,
  eq_iff p status_sent,
  eq_iff p status_delayed,
  eq_iff p status_delivered,
  eq_iff p status_complained,
  eq_iff p status_bounced,
  eq_iff p status_failed,
  eq_iff p status_suppressed,
)

unknown-derive_state : (q p : String) → status_rank p ≡ none → derive_state q p ≡ queue_state q
unfolding derive_state
unknown-derive_state q p e = rw (e, derive_state)

Fits : Option (String × String) → Type 0
Fits none = Unit
Fits (some (before, after)) = rune_count before + rune_count after ≤ 79

alert_format-Fits : (s : String) → Fits (alert_format s)
unfolding alert_format Fits
alert_format-Fits s = ground arith

shorten-le : (r : String) → rune_count (shorten r) ≤ 121
unfolding shorten
shorten-le r = elim (Bool-cases (r == "")) [
  | inl e ↦ rw e (omega arith)
  | inr e ↦ rw e (elim (Bool-cases (ltb max_alert_recipient_runes (rune_count r))) [
    | inl long ↦
        rw (long, rune_count-append)
          (omega (arith, rune_count-take_runes max_alert_recipient_runes r))
    | inr short ↦ rw short (ground arith)
  ])
]

short_recipient-le : (r : String) → rune_count (short_recipient r) ≤ 121
unfolding short_recipient
short_recipient-le r = shorten-le (trim_space r)

format_title-le :
    (o : Option (String × String)) (r : String)
    → Fits o
    → rune_count r ≤ 121
    → rune_count (format_title o r) ≤ 200
unfolding format_title Fits
format_title-le none r fits h = omega arith
format_title-le (some (before, after)) r fits h =
    omega (arith, rune_count-append (before +++ r) after, rune_count-append before r)

-- An alert's title has at most 200 characters, the width of its column, whatever the recipient.
pub rune_count-alert_title :
    (status recipient : String) → rune_count (alert_title status recipient) ≤ 200
unfolding alert_title
rune_count-alert_title status recipient =
    format_title-le (alert_format status) (short_recipient recipient) (alert_format-Fits status)
      (short_recipient-le recipient)

known-IsClientState :
    (q p : String) (r : ℕ) → status_rank p ≡ some r → IsClientState (derive_state q p)
known-IsClientState q p r h = elim (known-cases p r h) [
  | inl e ↦ at_literal e (unfold derive_state status_rank IsClientState in refl)
  | inr (inl e) ↦ at_literal e (unfold derive_state status_rank IsClientState in refl)
  | inr (inr (inl e)) ↦ at_literal e (unfold derive_state status_rank IsClientState in refl)
  | inr (inr (inr (inl e))) ↦ at_literal e (unfold derive_state status_rank IsClientState in refl)
  | inr (inr (inr (inr (inl e)))) ↦
      at_literal e (unfold derive_state status_rank IsClientState in refl)
  | inr (inr (inr (inr (inr (inl e))))) ↦
      at_literal e (unfold derive_state status_rank IsClientState in refl)
  | inr (inr (inr (inr (inr (inr e))))) ↦
      at_literal e (unfold derive_state status_rank IsClientState in refl)
]
  where
    at_literal :
        {s : String} → p ≡ s → IsClientState (derive_state q s) → IsClientState (derive_state q p)
    at_literal e h = subst (λ t. IsClientState (derive_state q t)) (sym e) h

-- Whatever the two stored statuses are, the client is shown one of the eleven documented states
-- (never the provider's own spelling "delivery_delayed").
pub derive_state-IsClientState :
    (queue_status provider_status : String)
    → IsClientState (derive_state queue_status provider_status)
derive_state-IsClientState q p = elim (Option-cases (status_rank p)) [
  | inl e ↦ rw (unknown-derive_state q p e) (queue_state-IsClientState q)
  | inr (r, e) ↦ known-IsClientState q p r e
]
