-- ===== src/Bots/Control/Power.antt =====
-- The rows before and after `applyBotControl` of src/modules/bots/control.ts.
use braiker.Domain.{running, paused, risk_halted, active, off, paper_active}
use braiker.Bots.Row.{BotRow, find_bot, find_bot-update_bot_self, find_bot-update_bot_ne}
use braiker.Bots.Templates.{validate_bot_mode_change}
use braiker.Bots.Control.{
  BotControl, turn_on, turn_off, ControlDb, ControlInput, resolve_bot_power_change, find_member,
  is_permitted, status_of, powered, with_power, is_dead, throw_some, apply_bot_control,
  control_found,
}
use braiker.Prelude.{some, true, false, ◌≡◌, refl, arith, String, ◌≢◌, ◌↔◌, ◌⊎◌, subst₂, sym}
use braiker.Prelude.Result.{ok, or_throw->>=, throw}

-- The positions of the switch: the three columns agree.
abbrev pub IsSwitched : {A : Type 0} → BotControl → BotRow A → Type 0
IsSwitched turn_on bot =
    (bot.run_mode ≡ paper_active) × (bot.status ≡ running) × (bot.kill_switch ≡ false)
IsSwitched turn_off bot = (bot.run_mode ≡ off) × (bot.status ≡ paused) × (bot.kill_switch ≡ true)

-- A statement of what a successful call did to the row `bot`.
pub record Switched {A : Type 0} (input : ControlInput) (db : ControlDb A) (bot : BotRow A)
    (out : BotRow A) (db' : ControlDb A) : Type 0 where
  pub found : find_bot input.bot_id db.bots ≡ some bot
  pub permitted :
      is_permitted input.actor_role (find_member bot.wallet_id input.actor_id db.members) ≡ true
  pub alive : bot.life_status ≡ active
  pub switched : IsSwitched input.action out
  pub same_money :
      (out.current_capital ≡ bot.current_capital) × (out.reserved_capital ≡ bot.reserved_capital)
  pub stays_alive : out.life_status ≡ active
  pub stored : find_bot input.bot_id db'.bots ≡ some out
  pub others :
      (other : String) → other ≢ input.bot_id → find_bot other db'.bots ≡ find_bot other db.bots

module _ {A : Type 0} where
  switched_lem :
      (action : BotControl) (bot : BotRow A)
      → let (mode, kill) = resolve_bot_power_change action in
        IsSwitched action (powered mode kill bot)
  unfolding resolve_bot_power_change powered status_of
  switched_lem turn_on bot = (refl, refl, refl)
  switched_lem turn_off bot = (refl, refl, refl)

  Switched-row :
      (input : ControlInput) (db : ControlDb A) (bot : BotRow A)
      → find_bot input.bot_id db.bots ≡ some bot
      → is_permitted input.actor_role (find_member bot.wallet_id input.actor_id db.members) ≡ true
      → bot.life_status ≡ active
      → let (mode, kill) = resolve_bot_power_change input.action in
        Switched input db bot (powered mode kill bot) (with_power input bot mode kill db)
  unfolding with_power
  Switched-row input db bot found permitted alive =
      let mode = (resolve_bot_power_change input.action).0 in
      let kill = (resolve_bot_power_change input.action).1 in
      record {
        found = found;
        permitted = permitted;
        alive = alive;
        switched = switched_lem input.action bot;
        same_money = unfold powered in (refl, refl);
        stays_alive = unfold powered in alive;
        stored =
            find_bot-update_bot_self input.bot_id (powered mode kill) db.bots bot
              (λ b. unfold powered in refl) found;
        others = λ other ne.
            find_bot-update_bot_ne input.bot_id other (powered mode kill) db.bots bot
              (λ b. unfold powered in refl) found ne;
      }

  control_found-ok :
      (input : ControlInput) (db : ControlDb A) (bot out : BotRow A) (db' : ControlDb A)
      → control_found input db bot ≡ ok (out, db')
      → let (mode, kill) = resolve_bot_power_change input.action in
        (is_permitted input.actor_role (find_member bot.wallet_id input.actor_id db.members) ≡ true)
        × (bot.life_status ≡ active)
        × (out ≡ powered mode kill bot)
        × (db' ≡ with_power input bot mode kill db)
  unfolding control_found is_dead
  control_found-ok input db bot out db' h = ground arith

  -- A call that returns found a living bot, was made by an Admin or a member of the bot's wallet
  -- who is no Viewer, set the three switch columns of that bot together, and touched neither its
  -- money nor another bot.
  pub apply_bot_control-Switched :
      (input : ControlInput) (db : ControlDb A) (out : BotRow A) (db' : ControlDb A)
      → apply_bot_control input db ≡ ok (out, db')
      → (bot : BotRow A) × Switched input db bot out db'
  unfolding apply_bot_control
  apply_bot_control-Switched input db out db' h =
      let (bot, found, h0) = or_throw->>= (find_bot input.bot_id db.bots) "BOT_NOT_FOUND" _ h in
      let (permitted, alive, e, f) = control_found-ok input db bot out db' h0 in
      (
        bot,
        subst₂ (λ o t. Switched input db bot o t) (sym e) (sym f)
            (Switched-row input db bot found permitted alive),
      )

module _ {A : Type 0} where
  only_idle :
      (input : ControlInput) (db : ControlDb A) (bot : BotRow A) (r : BotRow A × ControlDb A)
      → control_found input db bot ≡ ok r
      → input.action ≡ turn_on
      → (bot.status ≡ running) ⊎ (bot.status ≡ paused)
  unfolding control_found validate_bot_mode_change resolve_bot_power_change throw_some is_dead
  only_idle input db bot r h on = ground arith

  -- A found bot's control returns exactly when the caller is permitted, the bot is active and, to
  -- turn it on, its status is RUNNING or PAUSED; whether its kill switch is set does not matter.
  pub control_found_accepts :
      (input : ControlInput) (db : ControlDb A) (bot : BotRow A)
      → ((r : BotRow A × ControlDb A) × (control_found input db bot ≡ ok r)) ↔ (
          (is_permitted input.actor_role (find_member bot.wallet_id input.actor_id db.members)
            ≡ true)
          × (bot.life_status ≡ active)
          × (input.action ≡ turn_on → (bot.status ≡ running) ⊎ (bot.status ≡ paused)))
  unfolding control_found validate_bot_mode_change resolve_bot_power_change throw_some is_dead
  control_found_accepts input db bot =
      let mode = (resolve_bot_power_change input.action).0 in
      let kill = (resolve_bot_power_change input.action).1 in
      (
        λ r.
            let (p, a, _, _) = control_found-ok input db bot r.0.0 r.0.1 r.1 in
            (p, a, λ on. only_idle input db bot r.0 r.1 on),
        λ h. (
          (powered mode kill bot, with_power input bot mode kill db),
          ground (arith, h.0, h.1, h.2),
        ),
      )

  -- For a living bot in RISK_HALTED whose control the caller is permitted, turning it on is refused
  -- with BOT_RISK_HALTED, while turning it off and then on succeeds and leaves it running with its
  -- kill switch off.
  pub halt_cleared :
      (input : ControlInput) (db : ControlDb A) (bot : BotRow A)
      → find_bot input.bot_id db.bots ≡ some bot
      → is_permitted input.actor_role (find_member bot.wallet_id input.actor_id db.members) ≡ true
      → bot.life_status ≡ active
      → bot.status ≡ risk_halted
      → let asks = λ (action : BotControl). record input { action = action } in
        (apply_bot_control (asks turn_on) db ≡ throw "BOT_RISK_HALTED")
        × ((paused_db on_db : ControlDb A) × (off_bot on_bot : BotRow A) × (apply_bot_control
                (asks turn_off)
                db
              ≡ ok (off_bot, paused_db))
            × (apply_bot_control (asks turn_on) paused_db ≡ ok (on_bot, on_db))
            × IsSwitched turn_on on_bot)
  unfolding apply_bot_control control_found validate_bot_mode_change resolve_bot_power_change
      throw_some is_dead
  halt_cleared input db bot found permitted alive halted =
      let off_bot = powered off true bot in
      let off_input : ControlInput = record input { action = turn_off } in
      let on_input : ControlInput = record input { action = turn_on } in
      let paused_db = with_power off_input bot off true db in
      let stored : find_bot input.bot_id paused_db.bots ≡ some off_bot =
        unfold with_power in
        find_bot-update_bot_self input.bot_id (powered off true) db.bots bot
          (λ b. unfold powered in refl) found in
      let permits : is_permitted input.actor_role
            (find_member off_bot.wallet_id input.actor_id paused_db.members)
          ≡ true =
        unfold with_power powered in permitted in
      let lives : off_bot.life_status ≡ active = unfold powered in alive in
      let stops : off_bot.status ≡ paused = unfold powered status_of in refl in
      (
        rw (found, permitted, alive, halted),
        (
          paused_db,
          with_power on_input off_bot paper_active false paused_db,
          off_bot,
          powered paper_active false off_bot,
          rw (found, permitted, alive),
          rw (stored, permits, lives, stops),
          unfold powered status_of in (refl, refl, refl),
        ),
      )
