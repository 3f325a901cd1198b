-- ===== src/Notifications/Delivery.antt =====
-- src/modules/notifications/notification-delivery.ts. The senders, which call a webhook, SMTP or
-- Telegram, are one parameter, and so is the text that the log keeps of an error.
pub mod Runs
pub mod Sent
pub mod Counted
pub mod AtMostOnce
use braiker.Prelude.Result.{Result, ok, throw, ◌>>◌}
use braiker.Prelude.Table.{update_rows}
use braiker.Prelude.{
  ℕ, true, false, ◌*◌, Bool, Option, List, String, some, ◌==◌, any, ◌∷◌, ◌&&◌, if◌then◌else◌,
  str_eq, none, length, take, leb, not, [], ◌++◌, keep, ◌+◌,
}
use braiker.Notifications.Settings.{is_notification_event, is_blank}
use braiker.Notifications.Alerts.{NotificationAlert, ChannelState, is_resolved}
use braiker.Prelude.Sort.{sort_by}

unfoldable pub delivery_retry_ms : ℕ
delivery_retry_ms = 10 * 60_000

pub data Channel : Type 0 where
  webhook email telegram : Channel

abbrev pub channel_code : Channel → ℕ
channel_code webhook = 0
channel_code email = 1
channel_code telegram = 2

abbrev pub same_channel : Channel → Channel → Bool
same_channel a b = channel_code a == channel_code b

-- `alert[`${channel}DeliveredAt`]` and its companions
unfoldable pub state_of : Channel → NotificationAlert → ChannelState
state_of webhook alert = alert.webhook
state_of email alert = alert.email
state_of telegram alert = alert.telegram

unfoldable pub with_state : Channel → ChannelState → NotificationAlert → NotificationAlert
with_state webhook state alert = record alert { webhook = state }
with_state email state alert = record alert { email = state }
with_state telegram state alert = record alert { telegram = state }

pub record WebhookSettings : Type 0 where
  pub is_enabled : Bool
  pub url : Option String
  pub events : List String

pub record EmailSettings : Type 0 where
  pub is_enabled : Bool
  pub smtp_configured : Bool
  pub recipients : List String
  pub events : List String

pub record TelegramSettings : Type 0 where
  pub manager_enabled : Bool
  pub is_enabled : Bool
  pub is_configured : Bool
  pub is_paired : Bool
  pub events : List String

pub record DeliverySettings : Type 0 where
  pub webhook : WebhookSettings
  pub email : EmailSettings
  pub telegram : TelegramSettings

pub data Destination : Type 0 where
  to_url : Option String → Destination
  to_recipients : List String → Destination
  to_paired_chat : Destination

pub record PlannedDelivery : Type 0 where
  pub channel : Channel
  pub destination : Destination

unfoldable pub selected : List String → String → Bool
selected events event_type =
    any (λ event. str_eq event event_type && is_notification_event event) events

-- `!deliveredAt && (!lastAttemptAt || now - lastAttemptAt >= retryAfterMs)`
unfoldable pub delivery_due : ChannelState → ℕ → ℕ → Bool
delivery_due state now retry_after_ms = elim state.delivered_at [
  | some at ↦ false
  | none ↦ elim state.last_attempt_at [ none ↦ true | some at ↦ leb (at + retry_after_ms) now ]
]

abbrev pub has_any : List String → Bool
has_any [] = false
has_any (x ∷ xs) = true

unfoldable pub wants_webhook : WebhookSettings → NotificationAlert → Bool
wants_webhook settings alert =
    settings.is_enabled && not (is_blank settings.url) && selected settings.events alert.event_type

unfoldable pub wants_email : EmailSettings → NotificationAlert → Bool
wants_email settings alert =
    settings.is_enabled
    && settings.smtp_configured
    && has_any settings.recipients
    && selected settings.events alert.event_type

unfoldable pub wants_telegram : TelegramSettings → NotificationAlert → Bool
wants_telegram settings alert =
    settings.manager_enabled
    && settings.is_enabled
    && settings.is_configured
    && settings.is_paired
    && selected settings.events alert.event_type

unfoldable pub planned_if : Bool → Channel → Destination → List PlannedDelivery
planned_if condition channel destination =
    if condition then record { channel = channel; destination = destination } ∷ [] else []

unfoldable pub plan_notification_deliveries :
    DeliverySettings → ℕ → ℕ → NotificationAlert → List PlannedDelivery
plan_notification_deliveries settings now retry_after_ms alert =
    planned_if
      (wants_webhook settings.webhook alert && delivery_due alert.webhook now retry_after_ms)
      webhook (to_url settings.webhook.url)
    ++ planned_if (wants_email settings.email alert && delivery_due alert.email now retry_after_ms)
        email (to_recipients settings.email.recipients)
    ++ planned_if
        (wants_telegram settings.telegram alert && delivery_due alert.telegram now retry_after_ms)
        telegram to_paired_chat

abbrev pub has_alert_id : String → NotificationAlert → Bool
has_alert_id id row = str_eq row.id id

-- `status: "OPEN"`, not delivered, and no attempt later than the cutoff
unfoldable pub can_claim : String → Channel → ℕ → NotificationAlert → Bool
can_claim id channel now row =
    has_alert_id id row
    && not (is_resolved row.status)
    && delivery_due (state_of channel row) now delivery_retry_ms

unfoldable pub attempted : Channel → ℕ → NotificationAlert → NotificationAlert
attempted channel now row =
    with_state channel
      (record (state_of channel row) { last_attempt_at = some now; last_error = none }) row

-- `claim.count === 1`, and the table after the claim.
unfoldable pub claim_channel :
    String → Channel → ℕ → List NotificationAlert → Bool × List NotificationAlert
claim_channel id channel now rows = (
  length (keep (can_claim id channel now) rows) == 1,
  update_rows (can_claim id channel now) (attempted channel now) rows,
)

unfoldable pub delivered : Channel → ℕ → NotificationAlert → NotificationAlert
delivered channel now row =
    with_state channel
      (record (state_of channel row) { delivered_at = some now; last_error = none }) row

unfoldable pub undelivered : Channel → String → NotificationAlert → NotificationAlert
undelivered channel message row =
    with_state channel (record (state_of channel row) { last_error = some message }) row

-- `error ? … : …`: an empty text of an error reads as none.
unfoldable pub with_result : Channel → ℕ → Option String → NotificationAlert → NotificationAlert
with_result channel now none row = delivered channel now row
with_result channel now (some error) row =
    if str_eq error "" then delivered channel now row else undelivered channel error row

unfoldable pub record_delivery_result :
    String → Channel → ℕ → Option String → List NotificationAlert → List NotificationAlert
record_delivery_result id channel now error rows =
    update_rows (has_alert_id id) (with_result channel now error) rows
