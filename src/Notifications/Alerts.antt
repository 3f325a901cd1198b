-- ===== src/Notifications/Alerts.antt =====
-- src/modules/notifications/operational-alerts.ts: the `NotificationAlert` table under the checks that
-- open and resolve alerts. A date is its number of milliseconds.
use braiker.Prelude.Table.{update_rows}
use braiker.Prelude.{
  ℕ, true, false, Option, String, List, Bool, none, if◌then◌else◌, some, ◌∷◌, any, map, str_eq,
  ◌&&◌, ◌∷◌, [], keep, ◌++◌, not,
}

pub data AlertStatus : Type 0 where
  open_alert resolved : AlertStatus

pub data Severity : Type 0 where
  warning critical info : Severity

-- The three columns of one channel.
pub record ChannelState : Type 0 where
  pub delivered_at : Option ℕ
  pub last_attempt_at : Option ℕ
  pub last_error : Option String

pub record NotificationAlert : Type 0 where
  pub id : String
  pub dedupe_key : String
  pub event_type : String
  pub severity : Severity
  pub subject : String
  pub message : String
  pub status : AlertStatus
  pub first_observed_at : ℕ
  pub last_observed_at : ℕ
  pub resolved_at : Option ℕ
  pub webhook : ChannelState
  pub email : ChannelState
  pub telegram : ChannelState

pub record AlertCandidate : Type 0 where
  pub dedupe_key : String
  pub event_type : String
  pub severity : Severity
  pub subject : String
  pub message : String

pub data ServiceState : Type 0 where
  healthy configured disabled warned unavailable : ServiceState

pub record StatusService : Type 0 where
  pub id : String
  pub label : String
  pub state : ServiceState
  pub detail : String

abbrev pub status_failure_service_ids : List String
status_failure_service_ids = "database" ∷ "worker" ∷ "market-stream" ∷ "alpaca" ∷ []

abbrev pub status_failure : String
status_failure = "SYSTEM_STATUS_FAILURE"

abbrev pub is_failing : ServiceState → Bool
is_failing healthy = false
is_failing configured = false
is_failing disabled = false
is_failing warned = true
is_failing unavailable = true

abbrev pub severity_of : ServiceState → Severity
severity_of unavailable = critical
severity_of _ = warning

-- The template literals; `key_of` is injective, as a prefix is.
module _ (key_of subject_of : String → String) where
  unfoldable pub status_alert : StatusService → AlertCandidate
  status_alert service = record {
    dedupe_key = key_of service.id;
    event_type = status_failure;
    severity = severity_of service.state;
    subject = subject_of service.label;
    message = service.detail;
  }

  unfoldable pub needs_alert : StatusService → Bool
  needs_alert service =
      any (str_eq service.id) status_failure_service_ids && is_failing service.state

  unfoldable pub derive_status_failure_alerts : List StatusService → List AlertCandidate
  derive_status_failure_alerts services = map status_alert (keep needs_alert services)

abbrev pub quota_key : String
quota_key = "openai:quota"

unfoldable pub openai_quota_exhausted_alert : AlertCandidate
openai_quota_exhausted_alert = record {
  dedupe_key = quota_key;
  event_type = "OPENAI_QUOTA_EXHAUSTED";
  severity = warning;
  subject = "OpenAI quota is exhausted";
  message =
      "OpenAI rejected an advisory request because quota or billing is unavailable. Deterministic safeguards continue to run.";
}

abbrev pub untried : ChannelState
untried = record { delivered_at = none; last_attempt_at = none; last_error = none }

unfoldable pub new_alert : String → AlertCandidate → ℕ → NotificationAlert
new_alert id alert now = record {
  id = id;
  dedupe_key = alert.dedupe_key;
  event_type = alert.event_type;
  severity = alert.severity;
  subject = alert.subject;
  message = alert.message;
  status = open_alert;
  first_observed_at = now;
  last_observed_at = now;
  resolved_at = none;
  webhook = untried;
  email = untried;
  telegram = untried;
}

abbrev pub is_resolved : AlertStatus → Bool
is_resolved open_alert = false
is_resolved resolved = true

-- `IF(status = 'RESOLVED', a, b)`
abbrev if_resolved {ℓ} : {A : Type ℓ} → NotificationAlert → A → A → A
if_resolved row a b = if is_resolved row.status then a else b

-- `ON DUPLICATE KEY UPDATE`, which names the columns of the webhook and of the email.
unfoldable pub refreshed : AlertCandidate → ℕ → NotificationAlert → NotificationAlert
refreshed alert now row = record row {
  event_type = alert.event_type;
  severity = alert.severity;
  subject = alert.subject;
  message = alert.message;
  first_observed_at = if_resolved row now row.first_observed_at;
  last_observed_at = now;
  resolved_at = if_resolved row none row.resolved_at;
  webhook = if_resolved row untried row.webhook;
  email = if_resolved row untried row.email;
  status = open_alert;
}

abbrev pub has_dedupe_key : String → NotificationAlert → Bool
has_dedupe_key key row = str_eq row.dedupe_key key

unfoldable pub open_or_refresh_alert :
    String → AlertCandidate → ℕ → List NotificationAlert → List NotificationAlert
open_or_refresh_alert id alert now rows =
    if any (has_dedupe_key alert.dedupe_key) rows
    then update_rows (has_dedupe_key alert.dedupe_key) (refreshed alert now) rows
    else rows ++ new_alert id alert now ∷ []

unfoldable pub resolved_alert : ℕ → NotificationAlert → NotificationAlert
resolved_alert now row = record row { status = resolved; resolved_at = some now }

-- Each alert with the id that `randomUUID` gives its row.
unfoldable pub open_alerts :
    List (String × AlertCandidate) → ℕ → List NotificationAlert → List NotificationAlert
open_alerts [] now rows = rows
open_alerts ((id, alert) ∷ alerts) now rows =
    open_alerts alerts now (open_or_refresh_alert id alert now rows)

-- Open alerts of the event type whose key is none of the active ones.
unfoldable pub has_recovered : List (String × AlertCandidate) → NotificationAlert → Bool
has_recovered active row =
    str_eq row.event_type status_failure
    && not (is_resolved row.status)
    && not (any (λ (a : String × AlertCandidate). has_dedupe_key a.1.dedupe_key row) active)

-- The checks of one round; its statements run on `rows` in the order of the list.
unfoldable pub observe_status_failure_alerts :
    List (String × AlertCandidate) → ℕ → List NotificationAlert → List NotificationAlert
observe_status_failure_alerts active now rows =
    update_rows (has_recovered active) (resolved_alert now) (open_alerts active now rows)

unfoldable pub observe_openai_quota_exhausted :
    String → ℕ → List NotificationAlert → List NotificationAlert
observe_openai_quota_exhausted id now rows =
    open_or_refresh_alert id openai_quota_exhausted_alert now rows

unfoldable pub resolve_openai_quota_alert : ℕ → List NotificationAlert → List NotificationAlert
resolve_openai_quota_alert now rows =
    update_rows
      (λ (row : NotificationAlert). has_dedupe_key quota_key row && not (is_resolved row.status))
      (resolved_alert now) rows
