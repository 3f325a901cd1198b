-- ===== src/Wallets/Transfers/Conserves.antt =====
-- What a bot's capital adjustment by src/app/api/bots/[botId]/capital/route.ts conserves.
use braiker.Prelude.Result.{ok, ok-injective, >>=-eq-ok, or_throw->>=, throw_if->>, >>-eq-ok}
use braiker.Prelude.{List, ◌≡◌, find, subst, String, not, refl, ◌∙◌}
use braiker.Decimal.{ExactColumns, Decimal, money}
use braiker.Wallets.Transfers.{
  WalletRow, CapitalDb, move_bot_capital, adjust_found_bot, adjust_bot_capital, funds_bot,
  BotCapitalRequest, assigns, draws_from_bot, unassigns, is_bot, is_zero, has_unallocated,
  is_wallet, may_draw,
}
use braiker.Wallets.Transfers.Totals.{
  decremented-plus, total, moved, update_one-raised, plus-incremented, update_one-lowered,
  update_one-kept,
}
use braiker.Bots.Row.{BotRow}
use braiker.Bots.Control.{throw_some, is_dead}
use braiker.Capital.Policy.{withdraw, Direction, add}
use braiker.Prelude.Table.{update_one}

module _ (d : Decimal) (exact : ExactColumns d) where
  abbrev capital_of : BotRow d.Carrier → d.Carrier
  capital_of bot = bot.current_capital

  abbrev unallocated_of : WalletRow d.Carrier → d.Carrier
  unallocated_of wallet = wallet.unallocated_capital

  abbrev pub managed_of : WalletRow d.Carrier → d.Carrier
  managed_of wallet = wallet.managed_capital

  -- What the bots own and what the wallets have not assigned.
  abbrev pub in_wallets : List (BotRow d.Carrier) → List (WalletRow d.Carrier) → d.Carrier
  in_wallets bots wallets = d.plus (total d capital_of bots) (total d unallocated_of wallets)

  abbrev Conserves :
      CapitalDb d.Carrier → List (BotRow d.Carrier) × List (WalletRow d.Carrier) → Type 0
  Conserves db out =
      (in_wallets out.0 out.1 ≡ in_wallets db.bots db.wallets)
      × (total d managed_of out.1 ≡ total d managed_of db.wallets)

  move_bot_capital-Conserves :
      (direction : Direction) (bot_id wallet_id : String) (x : d.Carrier) (db : CapitalDb d.Carrier)
      (out : List (BotRow d.Carrier) × List (WalletRow d.Carrier))
      → move_bot_capital d direction bot_id wallet_id x db ≡ ok out
      → Conserves db out
  unfolding move_bot_capital funds_bot assigns draws_from_bot unassigns
  move_bot_capital-Conserves add bot_id wallet_id x db out h =
      let (w, ew, h1) =
        >>=-eq-ok (update_one (has_unallocated d wallet_id x) (assigns d x) _ db.wallets) _ h in
      let (b, eb, h2) = >>=-eq-ok (update_one (is_bot bot_id) (funds_bot d x) _ db.bots) _ h1 in
      subst (Conserves db) (ok-injective h2) (
        moved d exact x
            (update_one-raised d exact capital_of _ _ x _ db.bots b eb
              (λ r. plus-incremented d exact x r.current_capital))
            (update_one-lowered d exact unallocated_of _ _ x _ db.wallets w ew
              (λ r. decremented-plus d exact x r.unallocated_capital)),
        update_one-kept d exact managed_of _ _ _ db.wallets w ew (λ r. refl),
      )
  move_bot_capital-Conserves withdraw bot_id wallet_id x db out h =
      let (b, eb, h1) =
        >>=-eq-ok (update_one (may_draw d bot_id x) (draws_from_bot d x) _ db.bots) _ h in
      let (w, ew, h2) =
        >>=-eq-ok (update_one (is_wallet wallet_id) (unassigns d x) _ db.wallets) _ h1 in
      subst (Conserves db) (ok-injective h2) (
        exact.plus_comm _ _
            ∙ moved d exact x
                (update_one-raised d exact unallocated_of _ _ x _ db.wallets w ew
                  (λ r. plus-incremented d exact x r.unallocated_capital))
                (update_one-lowered d exact capital_of _ _ x _ db.bots b eb
                  (λ r. decremented-plus d exact x r.current_capital))
            ∙ exact.plus_comm _ _,
        update_one-kept d exact managed_of _ _ _ db.wallets w ew (λ r. refl),
      )

  -- Money moves between the bots and the wallets, and what the wallets manage stays.
  abbrev pub Adjusted : CapitalDb d.Carrier → CapitalDb d.Carrier → Type 0
  Adjusted db db' = Conserves db (db'.bots, db'.wallets) × (db'.pool ≡ db.pool)

  adjust_found_bot-Adjusted :
      (request : BotCapitalRequest) (amount : d.Carrier) (bot : BotRow d.Carrier)
      (wallet : WalletRow d.Carrier) (db db' : CapitalDb d.Carrier)
      → adjust_found_bot d request amount bot wallet db ≡ ok db'
      → Adjusted db db'
  unfolding adjust_found_bot
  adjust_found_bot-Adjusted request amount bot wallet db db' h =
      let (_, h1) = >>-eq-ok (throw_some _) _ h in
      let (moved, em, h2) =
        >>=-eq-ok (move_bot_capital d request.direction bot.id wallet.id amount db) _ h1 in
      let (_, _, h3) = or_throw->>= (find (is_bot bot.id) moved.0) _ _ h2 in
      subst (Adjusted db) (ok-injective h3)
        (move_bot_capital-Conserves request.direction bot.id wallet.id amount db moved em, refl)

  -- Where the columns' arithmetic is exact, an adjustment of a bot's capital that returns conserves
  -- the sum of what all bots own and all wallets have not assigned, and leaves the pool and what
  -- the wallets manage alone.
  pub adjust_bot_capital-Adjusted :
      (request : BotCapitalRequest) (db db' : CapitalDb d.Carrier)
      → adjust_bot_capital d request db ≡ ok db'
      → Adjusted db db'
  unfolding adjust_bot_capital
  adjust_bot_capital-Adjusted request db db' h =
      let (amount, _, h1) = >>=-eq-ok (money d request.amount) _ h in
      let (bot, _, h2) = or_throw->>= (find (is_bot request.bot_id) db.bots) _ _ h1 in
      let (_, h3) = throw_if->> (is_dead bot.life_status) _ _ h2 in
      let (_, h4) = throw_if->> (not (is_zero d bot.reserved_capital)) _ _ h3 in
      let (wallet, _, h5) = or_throw->>= (find (is_wallet bot.wallet_id) db.wallets) _ _ h4 in
      adjust_found_bot-Adjusted request amount bot wallet db db' h5
