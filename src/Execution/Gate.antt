-- ===== src/Execution/Gate.antt =====
-- src/modules/execution/kill-switch-gate.ts.
use braiker.Domain.{BotStatus, is_running}
use braiker.Prelude.{Bool, Option, String, none, some, not, if◌then◌else◌}

-- The reason that nothing may be submitted, or `none` where it may.
unfoldable pub can_submit_with_kill_switch : Bool → BotStatus → Bool → Option String
can_submit_with_kill_switch kill_switch status risk_approved =
    if kill_switch
    then some "KILL_SWITCH"
    else if not (is_running status)
    then some "BOT_NOT_RUNNING"
    else if not risk_approved
    then some "RISK_NOT_APPROVED"
    else none
