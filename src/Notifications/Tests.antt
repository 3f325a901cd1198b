-- ===== src/Notifications/Tests.antt =====
-- Runs of src/modules/notifications.
use braiker.Notifications.Delivery.Runs.{Round}
use braiker.Notifications.Delivery.AtMostOnce.{dispatch-once, dispatch_rounds}
use braiker.Notifications.Delivery.Counted.{delivered_count}
use braiker.Prelude.Result.{ok}
use braiker.Notifications.Delivery.{
  webhook, email, wants_webhook, wants_email, planned_if, to_url, to_recipients,
  plan_notification_deliveries, DeliverySettings, delivery_retry_ms,
}
use braiker.Notifications.Alerts.{
  open_alert, resolved, untried, critical, refreshed, ChannelState, NotificationAlert,
  AlertCandidate, observe_status_failure_alerts, has_recovered,
}
use braiker.Prelude.{[], ◌∷◌, none, some, true, ℕ, ◌≡◌, refl, ◌++◌, ◌≤◌, List, All, String, false}
use braiker.Notifications.Reopened.{plan_notification_deliveries-refreshed}
use braiker.Notifications.Observed.{IsOpen, observe_status_failure_alerts-Agrees}

abbrev delivered_once : ChannelState
delivered_once = record {
  delivered_at = some 1_000;
  last_attempt_at = some 1_000;
  last_error = none;
}

abbrev worker_alert : NotificationAlert
worker_alert = record {
  id = "a1";
  dedupe_key = "status:worker";
  event_type = "SYSTEM_STATUS_FAILURE";
  severity = critical;
  subject = "Worker needs attention";
  message = "No worker heartbeat has been recorded.";
  status = open_alert;
  first_observed_at = 1_000;
  last_observed_at = 1_000;
  resolved_at = none;
  webhook = untried;
  email = untried;
  telegram = untried;
}

abbrev resolved_worker : NotificationAlert
resolved_worker = record worker_alert {
  status = resolved;
  webhook = delivered_once;
  email = delivered_once;
  telegram = delivered_once;
}

abbrev worker_down : AlertCandidate
worker_down = record {
  dedupe_key = "status:worker";
  event_type = "SYSTEM_STATUS_FAILURE";
  severity = critical;
  subject = "Worker needs attention";
  message = "No worker heartbeat has been recorded.";
}

abbrev all_channels : DeliverySettings
all_channels = record {
  webhook = record {
    is_enabled = true;
    url = some "https://hooks.example.com";
    events = "SYSTEM_STATUS_FAILURE" ∷ [];
  };
  email = record {
    is_enabled = true;
    smtp_configured = true;
    recipients = "ops@example.com" ∷ [];
    events = "SYSTEM_STATUS_FAILURE" ∷ [];
  };
  telegram = record {
    manager_enabled = true;
    is_enabled = true;
    is_configured = true;
    is_paired = true;
    events = "SYSTEM_STATUS_FAILURE" ∷ [];
  };
}

abbrev round_at : ℕ → Round
round_at now = record {
  now = now;
  settings = some all_channels;
  send = λ delivery alert. ok tt;
  store_delivered = λ alert channel. ok tt;
  stores_failure = λ alert channel. true;
  sanitize = λ error. error;
}

dispatch-once_example :
    delivered_count "a1" webhook (
      dispatch_rounds
        (round_at 2_000 ∷ round_at 900_000 ∷ [])
        record { rows = worker_alert ∷ []; sends = []; is_stopped = false })
    ≤ 1
dispatch-once_example =
    dispatch-once (round_at 2_000 ∷ round_at 900_000 ∷ []) (worker_alert ∷ []) "a1" webhook

plan_notification_deliveries-refreshed_example :
    plan_notification_deliveries all_channels 900_000 delivery_retry_ms
      (refreshed worker_down 900_000 resolved_worker)
    ≡ planned_if
        (wants_webhook all_channels.webhook (refreshed worker_down 900_000 resolved_worker))
        webhook
        (to_url (some "https://hooks.example.com"))
      ++ planned_if
          (wants_email all_channels.email (refreshed worker_down 900_000 resolved_worker))
          email
          (to_recipients ("ops@example.com" ∷ []))
plan_notification_deliveries-refreshed_example =
    plan_notification_deliveries-refreshed all_channels worker_down 900_000 900_000
      delivery_retry_ms resolved_worker refl refl

abbrev down : List (String × AlertCandidate)
down = ("a2", worker_down) ∷ []

observe_status_failure_alerts-Agrees_example :
    All (IsOpen (observe_status_failure_alerts down 900_000 (resolved_worker ∷ []))) down
    × All
        (λ row. has_recovered down row ≡ false)
        (observe_status_failure_alerts down 900_000 (resolved_worker ∷ []))
observe_status_failure_alerts-Agrees_example =
    observe_status_failure_alerts-Agrees down 900_000 (resolved_worker ∷ [])
