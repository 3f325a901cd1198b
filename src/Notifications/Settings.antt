-- ===== src/Notifications/Settings.antt =====
-- src/modules/notifications/notification-settings.ts. The regular expressions of a URL and of an
-- address are tests that the caller passes.
use braiker.Prelude.{
  true, false, List, String, Option, Bool, ◌∷◌, any, some, if◌then◌else◌, [], str_eq, all, not,
  none, ◌||◌,
}

-- `notificationEventIds`
abbrev pub notification_event_ids : List String
notification_event_ids =
    "BOT_DEAD" ∷ "RISK_HALTED" ∷ "ORDER_FILLED" ∷ "ORDER_REJECTED" ∷ "SYNC_FAILED"
    ∷ "PORTFOLIO_DIVERGENCE" ∷ "SYSTEM_STATUS_FAILURE" ∷ "OPENAI_QUOTA_EXHAUSTED"
    ∷ "LEARNING_PROPOSAL" ∷ "BOT_MANAGER_DAILY_REPORT" ∷ "BOT_MANAGER_WEEKLY_REPORT"
    ∷ "BOT_MANAGER_MONTHLY_REPORT" ∷ []

unfoldable pub is_notification_event : String → Bool
is_notification_event value = any (str_eq value) notification_event_ids

unfoldable pub has_selected_events : List String → Bool
has_selected_events [] = false
has_selected_events (event ∷ events) = all is_notification_event (event ∷ events)

-- `!x`, of a text that may be missing
abbrev pub is_blank : Option String → Bool
is_blank none = true
is_blank (some value) = str_eq value ""

pub record WebhookChannel : Type 0 where
  pub is_enabled : Bool
  pub url : Option String
  pub events : List String

pub record EmailChannel : Type 0 where
  pub is_enabled : Bool
  pub recipients : List String
  pub events : List String

pub record TelegramChannel : Type 0 where
  pub is_enabled : Bool
  pub is_configured : Bool
  pub is_paired : Bool
  pub events : List String

abbrev webhook_error : String
webhook_error = "Webhook alerts need an HTTPS URL and at least one alert."

-- `/^https:\/\//i.test(url)`
module _ (is_https : String → Bool) where
  unfoldable pub is_secure : Option String → Bool
  is_secure none = false
  is_secure (some url) = is_https url

  unfoldable pub validate_webhook_channel : WebhookChannel → Option String
  validate_webhook_channel input =
      if not input.is_enabled
      then none
      else if is_blank input.url
          || not (is_secure input.url)
          || not (has_selected_events input.events)
      then some webhook_error
      else none

-- `emailPattern.test(recipient)`
module _ (is_address : String → Bool) where
  unfoldable pub has_recipients : List String → Bool
  has_recipients [] = false
  has_recipients (recipient ∷ recipients) = all is_address (recipient ∷ recipients)

  unfoldable pub validate_email_channel : EmailChannel → Option String
  validate_email_channel input =
      if not input.is_enabled
      then none
      else if not (has_recipients input.recipients)
      then some "Email alerts need at least one valid recipient."
      else if not (has_selected_events input.events)
      then some "Select at least one email alert."
      else none

unfoldable pub validate_telegram_channel : TelegramChannel → Option String
validate_telegram_channel input =
    if not input.is_enabled
    then none
    else if not input.is_configured
    then some "Telegram needs a server-side bot token before alerts can be enabled."
    else if not input.is_paired
    then some "Pair the Bot Manager chat before enabling Telegram alerts."
    else if not (has_selected_events input.events)
    then some "Select at least one Telegram alert."
    else none

-- Of the master switch.
unfoldable pub validate_telegram_manager : Bool → Bool → Option String
validate_telegram_manager is_enabled is_configured =
    if not is_enabled || is_configured
    then none
    else some "Telegram needs a server-side bot token before Bot Manager can be enabled."

unfoldable pub validate_telegram_messages : Bool → Bool → Bool → Option String
validate_telegram_messages receives is_configured is_paired =
    if not receives
    then none
    else if not is_configured
    then some "Telegram needs a server-side bot token before messages can be enabled."
    else if not is_paired
    then some "Pair the Bot Manager chat before enabling Telegram messages."
    else none
