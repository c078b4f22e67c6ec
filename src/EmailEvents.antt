-- ===== src/EmailEvents.antt =====
-- emailevents/status.go: what the email provider reports about a sent email.
pub mod Order
pub mod View
pub mod Svix
pub mod Store
use stonesuite_notify.Base.{
  ℕ, suc, ◌+◌, String, Bool, true, false, ◌||◌, ◌==◌, Option, none, some, List, [], ◌∷◌, ltb,
  if◌then◌else◌,
}
use stonesuite_notify.Base.Text.{trim_space, rune_count, take_runes, ◌+++◌}
use stonesuite_notify.Deliveries.{
  Status, pending, processing, sent, retrying, failed, skipped, status_text,
}

abbrev pub status_sent : String
status_sent = "sent"

abbrev pub status_delayed : String
status_delayed = "delivery_delayed"

abbrev pub status_delivered : String
status_delivered = "delivered"

abbrev pub status_complained : String
status_complained = "complained"

abbrev pub status_bounced : String
status_bounced = "bounced"

abbrev pub status_failed : String
status_failed = "failed"

abbrev pub status_suppressed : String
status_suppressed = "suppressed"

abbrev pub state_queued : String
state_queued = "queued"

abbrev pub state_retrying : String
state_retrying = "retrying"

abbrev pub state_delayed : String
state_delayed = "delayed"

abbrev pub state_skipped : String
state_skipped = "skipped"

abbrev pub state_unknown : String
state_unknown = "unknown"

abbrev pub alert_event_type : String
alert_event_type = "email.delivery_problem"

-- eventStatuses, the lookup of `StatusForEvent`; `none` is a missing key.
unfoldable pub status_for_event : String → Option String
status_for_event t =
    if t == "email.sent"
    then some status_sent
    else if t == "email.delivery_delayed"
    then some status_delayed
    else if t == "email.delivered"
    then some status_delivered
    else if t == "email.complained"
    then some status_complained
    else if t == "email.bounced"
    then some status_bounced
    else if t == "email.failed"
    then some status_failed
    else if t == "email.suppressed"
    then some status_suppressed
    else none

-- statusRank
unfoldable pub status_rank : String → Option ℕ
status_rank s =
    if s == status_sent
    then some 10
    else if s == status_delayed
    then some 20
    else if s == status_delivered
    then some 30
    else if s == status_complained
    then some 40
    else if s == status_bounced
    then some 50
    else if s == status_failed
    then some 50
    else if s == status_suppressed
    then some 50
    else none

-- A map lookup of a missing key gives 0.
abbrev pub or_zero : Option ℕ → ℕ
or_zero none = 0
or_zero (some n) = n

abbrev pub rank : String → ℕ
rank s = or_zero (status_rank s)

-- The rank test of `Advance`, on the looked-up rank of the incoming status.
unfoldable pub advance_to : String → String → Option ℕ → String × Bool
advance_to current incoming none = (current, false)
advance_to current incoming (some r) =
    if ltb (rank current) r then (incoming, true) else (current, false)

unfoldable pub advance : String → String → String × Bool
unfolding advance_to
advance current incoming = advance_to current incoming (status_rank incoming)

unfoldable pub is_problem : String → Bool
is_problem s =
    s == status_delayed
    || s == status_complained
    || s == status_bounced
    || s == status_failed
    || s == status_suppressed

-- The switch of `DeriveState` on the send-queue status.
unfoldable pub queue_state : String → String
unfolding status_text
queue_state q =
    if q == status_text pending || q == status_text processing
    then state_queued
    else if q == status_text sent
    then status_sent
    else if q == status_text retrying
    then state_retrying
    else if q == status_text failed
    then status_failed
    else if q == status_text skipped
    then state_skipped
    else state_unknown

unfoldable pub derive_state : String → String → String
unfolding queue_state
derive_state queue_status provider_status = elim (status_rank provider_status) [
  | some _ ↦ if provider_status == status_delayed then state_delayed else provider_status
  | none ↦ queue_state queue_status
]

-- alertTitles: the texts before and after the %s.
unfoldable pub alert_format : String → Option (String × String)
alert_format s =
    if s == status_bounced
    then some ("Email to ", " bounced")
    else if s == status_complained
    then some ("Email to ", " was marked as spam")
    else if s == status_failed
    then some ("Email to ", " could not be sent")
    else if s == status_suppressed
    then some ("Email to ", " was not sent")
    else if s == status_delayed
    then some ("Email to ", " is delayed")
    else none

abbrev pub max_alert_recipient_runes : ℕ
max_alert_recipient_runes = 120

-- The length test of `shortRecipient`, on the trimmed recipient.
unfoldable pub shorten : String → String
shorten r =
    if r == ""
    then "a recipient"
    else if ltb max_alert_recipient_runes (rune_count r)
    then take_runes max_alert_recipient_runes r +++ "…"
    else r

unfoldable pub short_recipient : String → String
unfolding shorten
short_recipient recipient = shorten (trim_space recipient)

-- fmt.Sprintf on a found format; "" without one.
unfoldable pub format_title : Option (String × String) → String → String
format_title none recipient = ""
format_title (some (before, after)) recipient = before +++ recipient +++ after

unfoldable pub alert_title : String → String → String
unfolding format_title alert_format
alert_title status recipient = format_title (alert_format status) (short_recipient recipient)

unfoldable pub alert_body : String → String
alert_body s =
    if s == status_bounced
    then "The recipient's mail server rejected this email. Check the address and try again."
    else if s == status_complained
    then "The recipient reported this email as spam. Avoid re-sending it to this address."
    else if s == status_failed
    then "The email could not be sent. Try again, or contact support if the problem continues."
    else if s == status_suppressed
    then "This address is on a suppression list because earlier emails to it bounced or were reported as spam."
    else if s == status_delayed
    then "The recipient's mail server is slow to accept this email. We will keep trying; no action is needed yet."
    else ""
