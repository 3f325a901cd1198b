-- ===== src/Notifications/Reopened.antt =====
-- src/modules/notifications/operational-alerts.ts, together with notification-delivery.ts: an alert that
-- reopens, and which channels hear of it.
use braiker.Notifications.Delivery.{
  Channel, webhook, email, telegram, PlannedDelivery, plan_notification_deliveries, same_channel,
  DeliverySettings, delivery_due, planned_if, wants_webhook, to_url, wants_email, to_recipients,
  Destination, wants_telegram, to_paired_chat,
}
use braiker.Prelude.{List, [], ◌∷◌, some, Bool, true, false, ℕ, ◌≡◌, refl, ◌++◌, ap, ◌&&◌}
use braiker.Notifications.Alerts.{refreshed, AlertCandidate, NotificationAlert, resolved}

abbrev pub is_for : Channel → PlannedDelivery → Bool
is_for channel delivery = same_channel delivery.channel channel

-- A channel is due again once its alert reopens.
refreshed-webhook-due :
    (alert : AlertCandidate) (opened now retry_after_ms : ℕ) (row : NotificationAlert)
    → row.status ≡ resolved
    → delivery_due (refreshed alert opened row).webhook now retry_after_ms ≡ true
unfolding refreshed delivery_due
refreshed-webhook-due alert opened now retry_after_ms row h = rw h refl

refreshed-email-due :
    (alert : AlertCandidate) (opened now retry_after_ms : ℕ) (row : NotificationAlert)
    → row.status ≡ resolved
    → delivery_due (refreshed alert opened row).email now retry_after_ms ≡ true
unfolding refreshed delivery_due
refreshed-email-due alert opened now retry_after_ms row h = rw h refl

refreshed-telegram-due :
    (alert : AlertCandidate) (opened now retry_after_ms : ℕ) (row : NotificationAlert) {at : ℕ}
    → row.telegram.delivered_at ≡ some at
    → delivery_due (refreshed alert opened row).telegram now retry_after_ms ≡ false
unfolding refreshed delivery_due
refreshed-telegram-due alert opened now retry_after_ms row h = rw h refl

planned_if-due :
    (wants : Bool) (channel : Channel) (destination : Destination)
    → planned_if (wants && true) channel destination ≡ planned_if wants channel destination
planned_if-due true channel destination = refl
planned_if-due false channel destination = refl

planned_if-done :
    (wants : Bool) (channel : Channel) (destination : Destination)
    → planned_if (wants && false) channel destination ≡ []
unfolding planned_if
planned_if-done true channel destination = refl
planned_if-done false channel destination = refl

append_nil : (xs : List PlannedDelivery) → xs ++ [] ≡ xs
append_nil [] = refl
append_nil (x ∷ xs) = ap (λ ys. x ∷ ys) (append_nil xs)

-- Of a resolved alert that was delivered over Telegram and reopens, the deliveries planned are that
-- of the webhook and that of the email, each exactly where its settings want the alert, whatever
-- was sent before, and none over Telegram, whatever its settings and the time.
pub plan_notification_deliveries-refreshed :
    (settings : DeliverySettings) (alert : AlertCandidate) (opened now retry_after_ms : ℕ)
    (row : NotificationAlert) {at : ℕ}
    → row.status ≡ resolved
    → row.telegram.delivered_at ≡ some at
    → plan_notification_deliveries settings now retry_after_ms (refreshed alert opened row)
      ≡ planned_if
          (wants_webhook settings.webhook (refreshed alert opened row))
          webhook
          (to_url settings.webhook.url)
        ++ planned_if
            (wants_email settings.email (refreshed alert opened row))
            email
            (to_recipients settings.email.recipients)
unfolding plan_notification_deliveries
plan_notification_deliveries-refreshed settings alert opened now retry_after_ms row h t =
    let webhook_due = refreshed-webhook-due alert opened now retry_after_ms row h in
    let email_due = refreshed-email-due alert opened now retry_after_ms row h in
    let telegram_due = refreshed-telegram-due alert opened now retry_after_ms row t in
    rw
      (
        webhook_due,
        email_due,
        telegram_due,
        planned_if-due (wants_webhook settings.webhook (refreshed alert opened row)) webhook
            (to_url settings.webhook.url),
        planned_if-due (wants_email settings.email (refreshed alert opened row)) email
            (to_recipients settings.email.recipients),
        planned_if-done (wants_telegram settings.telegram (refreshed alert opened row)) telegram
            to_paired_chat,
      )
      (append_nil _)
