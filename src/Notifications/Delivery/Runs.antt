-- ===== src/Notifications/Delivery/Runs.antt =====
-- src/modules/notifications/notification-delivery.ts: a run of `dispatchPendingNotificationAlerts`, with
-- what its senders and its updates return. A database call elsewhere in it is taken to return.
use braiker.Prelude.Result.{Result, ok, throw, ◌>>◌}
use braiker.Notifications.Delivery.{
  Channel, DeliverySettings, record_delivery_result, PlannedDelivery, claim_channel,
  plan_notification_deliveries, delivery_retry_ms,
}
use braiker.Notifications.Alerts.{NotificationAlert, is_resolved}
use braiker.Prelude.{
  List, [], ◌∷◌, Option, none, some, Bool, true, false, ℕ, String, take, leb, keep, not,
  if◌then◌else◌,
}
use braiker.Prelude.Sort.{sort_by}

-- A delivery that one run tried, and whether it is one of those that `delivered` counts.
pub record Send : Type 0 where
  pub alert_id : String
  pub channel : Channel
  pub is_counted : Bool

-- The table, the deliveries tried by all runs so far, and whether the last run has thrown.
pub record Dispatch : Type 0 where
  pub rows : List NotificationAlert
  pub sends : List Send
  pub is_stopped : Bool

-- What one run finds: the senders, whether the update after a send that returned throws and whether
-- the one in the catch is stored, and the text that is kept of an error.
pub record Round : Type 0 where
  pub now : ℕ
  pub settings : Option DeliverySettings
  pub send : PlannedDelivery → NotificationAlert → Result (Unit {0})
  pub store_delivered : NotificationAlert → Channel → Result (Unit {0})
  pub stores_failure : NotificationAlert → Channel → Bool
  pub sanitize : String → String

-- The open alerts that one run reads: a hundred at most, the longest unobserved first.
unfoldable pub pending_alerts : List NotificationAlert → List NotificationAlert
pending_alerts rows = take 100 (
    sort_by (λ (a b : NotificationAlert). leb a.last_observed_at b.last_observed_at)
      (keep (λ (row : NotificationAlert). not (is_resolved row.status)) rows))

module _ (round : Round) where
  -- The catch; a throw of its own update ends the run.
  unfoldable pub fail_delivery : NotificationAlert → Channel → String → Dispatch → Dispatch
  fail_delivery alert channel message run =
      if round.stores_failure alert channel
      then record run {
        rows =
            record_delivery_result alert.id channel round.now (some (round.sanitize message))
              run.rows;
        sends = record { alert_id = alert.id; channel = channel; is_counted = false } ∷ run.sends;
      }
      else record run { is_stopped = true }

  -- What follows the send and the update of the try.
  unfoldable pub settle_delivery :
      NotificationAlert → Channel → Result (Unit {0}) → Dispatch → Dispatch
  settle_delivery alert channel (ok _) run = record run {
    rows = record_delivery_result alert.id channel round.now none run.rows;
    sends = record { alert_id = alert.id; channel = channel; is_counted = true } ∷ run.sends;
  }
  settle_delivery alert channel (throw message) run = fail_delivery alert channel message run

  unfoldable pub try_delivery : NotificationAlert → PlannedDelivery → Dispatch → Dispatch
  try_delivery alert delivery run =
      let claim = claim_channel alert.id delivery.channel round.now run.rows in
      let claimed = record run { rows = claim.1 } in
      if claim.0
      then settle_delivery alert delivery.channel
          (round.send delivery alert >> round.store_delivered alert delivery.channel) claimed
      else claimed

  unfoldable pub deliver : NotificationAlert → PlannedDelivery → Dispatch → Dispatch
  deliver alert delivery run = if run.is_stopped then run else try_delivery alert delivery run

  unfoldable pub deliver_all : NotificationAlert → List PlannedDelivery → Dispatch → Dispatch
  deliver_all alert [] run = run
  deliver_all alert (delivery ∷ deliveries) run =
      deliver_all alert deliveries (deliver alert delivery run)

  unfoldable pub deliver_alerts : DeliverySettings → List NotificationAlert → Dispatch → Dispatch
  deliver_alerts settings [] run = run
  deliver_alerts settings (alert ∷ alerts) run = deliver_alerts settings alerts (
      deliver_all alert (plan_notification_deliveries settings round.now delivery_retry_ms alert)
        run)

  unfoldable pub dispatch_with : Option DeliverySettings → Dispatch → Dispatch
  dispatch_with none run = run
  dispatch_with (some settings) run = deliver_alerts settings (pending_alerts run.rows) run

  -- Without settings nothing is done.
  unfoldable pub dispatch_pending_notification_alerts : Dispatch → Dispatch
  dispatch_pending_notification_alerts run =
      dispatch_with round.settings (record run { is_stopped = false })
