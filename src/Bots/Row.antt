-- ===== src/Bots/Row.antt =====
-- The `BotInstance` rows of prisma/schema.prisma, as far as the modelled code reads and writes them.
-- `A` is what a DECIMAL column holds. A table is a list of rows; ids are its keys.
use mathlib.Core.Option
use braiker.Domain.{BotStatus, LifeStatus, RunMode}
use braiker.Prelude.{
  String, Bool, List, Option, ◌∷◌, ◌≡◌, All, none, if◌then◌else◌, Bool-cases, str_eq, some, inl,
  inr, [], arith, eq_iff, ℕ, true, ◌&&◌, suc, refl, ◌∙◌, ◌≢◌,
}

pub record BotRow (A : Type 0) : Type 0 where
  pub id : String
  pub wallet_id : String
  pub name : String
  pub run_mode : RunMode
  pub status : BotStatus
  pub life_status : LifeStatus
  pub kill_switch : Bool
  pub initial_capital : A
  pub current_capital : A
  pub reserved_capital : A

module _ {A : Type 0} where
  -- `botInstance.findUnique({ where: { id } })`
  unfoldable pub find_bot : String → List (BotRow A) → Option (BotRow A)
  find_bot id [] = none
  find_bot id (bot ∷ bots) = if str_eq bot.id id then some bot else find_bot id bots

  pub find_bot-id :
      (id : String) (bots : List (BotRow A)) (bot : BotRow A)
      → find_bot id bots ≡ some bot
      → bot.id ≡ id
  unfolding find_bot
  find_bot-id id [] bot h = cc
  find_bot-id id (b ∷ bots) bot h = ground (arith, find_bot-id id bots bot, eq_iff b.id id)

  -- `UPDATE ... WHERE`: the rows that the clause picks, and how many they are.
  unfoldable pub update_where :
      (BotRow A → Bool) → (BotRow A → BotRow A) → List (BotRow A) → List (BotRow A)
  update_where picks change [] = []
  update_where picks change (bot ∷ bots) =
      let rest = update_where picks change bots in
      if picks bot then change bot ∷ rest else bot ∷ rest

  unfoldable pub count_where : (BotRow A → Bool) → List (BotRow A) → ℕ
  count_where picks [] = 0
  count_where picks (bot ∷ bots) =
      let rest = count_where picks bots in if picks bot then suc rest else rest

  abbrev pub has_id : String → BotRow A → Bool
  has_id id bot = str_eq bot.id id

  -- `botInstance.update({ where: { id }, data })`
  unfoldable pub update_bot : String → (BotRow A → BotRow A) → List (BotRow A) → List (BotRow A)
  unfolding update_where
  update_bot id = update_where (has_id id)

  find_bot-update_bot :
      (id other : String) (change : BotRow A → BotRow A) (bots : List (BotRow A))
      → ((bot : BotRow A) → (change bot).id ≡ bot.id)
      → find_bot other (update_bot id change bots)
        ≡ (if str_eq id other then Option.map change (find_bot other bots) else find_bot other bots)
  unfolding find_bot update_bot
  find_bot-update_bot id other change [] keeps = ground arith
  find_bot-update_bot id other change (bot ∷ bots) keeps = ground (
    arith,
    find_bot-update_bot id other change bots keeps,
    keeps bot,
    eq_iff bot.id id,
    eq_iff bot.id other,
    eq_iff id other,
  )

  pub find_bot-update_bot_self :
      (id : String) (change : BotRow A → BotRow A) (bots : List (BotRow A)) (bot : BotRow A)
      → ((b : BotRow A) → (change b).id ≡ b.id)
      → find_bot id bots ≡ some bot
      → find_bot id (update_bot bot.id change bots) ≡ some (change bot)
  find_bot-update_bot_self id change bots bot keeps found =
      find_bot-update_bot bot.id id change bots keeps
      ∙ rw ((eq_iff bot.id id).1 (find_bot-id id bots bot found), found)

  pub find_bot-update_bot_ne :
      (id other : String) (change : BotRow A → BotRow A) (bots : List (BotRow A)) (bot : BotRow A)
      → ((b : BotRow A) → (change b).id ≡ b.id)
      → find_bot id bots ≡ some bot
      → other ≢ id
      → find_bot other (update_bot bot.id change bots) ≡ find_bot other bots
  find_bot-update_bot_ne id other change bots bot keeps found ne =
      find_bot-update_bot bot.id other change bots keeps
      ∙ ground (arith, eq_iff bot.id other, find_bot-id id bots bot found, ne)

  -- A property of every row that the change keeps where the clause picks.
  pub All-update_where {κ} :
      (P : BotRow A → Type κ) (picks : BotRow A → Bool) (change : BotRow A → BotRow A)
      (bots : List (BotRow A))
      → ((bot : BotRow A) → picks bot ≡ true → P bot → P (change bot))
      → All P bots
      → All P (update_where picks change bots)
  unfolding update_where
  All-update_where P picks change [] keeps h = tt
  All-update_where P picks change (bot ∷ bots) keeps h = elim (Bool-cases (picks bot)) [
    | inl e ↦ rw e (keeps bot e h.0, All-update_where P picks change bots keeps h.1)
    | inr e ↦ rw e (h.0, All-update_where P picks change bots keeps h.1)
  ]

  -- Where an id stands in one row at most, the clause picks as many rows as it finds by the id.
  abbrev pub UniqueIds : List (BotRow A) → Type 0
  UniqueIds [] = Unit
  UniqueIds (bot ∷ bots) = (find_bot bot.id bots ≡ none) × UniqueIds bots

  count_where-none :
      (id : String) (test : BotRow A → Bool) (bots : List (BotRow A))
      → find_bot id bots ≡ none
      → count_where (λ bot. has_id id bot && test bot) bots ≡ 0
  unfolding count_where find_bot
  count_where-none id test [] h = refl
  count_where-none id test (bot ∷ bots) h = ground (arith, count_where-none id test bots)

  pub count_where_found :
      (id : String) (test : BotRow A → Bool) (bots : List (BotRow A)) (bot : BotRow A)
      → UniqueIds bots
      → find_bot id bots ≡ some bot
      → test bot ≡ true
      → count_where (λ bot. has_id id bot && test bot) bots ≡ 1
  unfolding count_where find_bot
  count_where_found id test [] bot u h t = cc
  count_where_found id test (b ∷ bots) bot u h t = elim (Bool-cases (str_eq b.id id)) [
    | inl e ↦ ground (arith, count_where-none id test bots, eq_iff b.id id, u.0, e)
    | inr e ↦ ground (arith, e, count_where_found id test bots bot u.1)
  ]
