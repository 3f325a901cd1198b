-- ===== src/Market/Cycle/Again.antt =====
-- A watchlist that is walked twice on the same candles.
use braiker.Prelude.Result.{Result, ok, throw}
use braiker.Prelude.{
  true, String, any, Option, ◌≡◌, List, some, none, ◌∷◌, All, Option-cases, refl, inl, inr, subst,
  [], sym, arith,
}
use braiker.Decimal.{Decimal}
use braiker.Indicators.Number.{Number}
use braiker.Risk.Types.{RiskPolicy}
use braiker.Bots.AdaptiveRisk.{Level}
use braiker.Market.ScanActivity.{ScanOutcome}
use braiker.Market.Evaluation.{EvaluationInput, EvaluationKey, evaluation_key}
use braiker.Market.Evaluate.{MarketDb, evaluate_bot_for_bar, has_key}
use braiker.Market.Evaluate.Once.{keeps_key, leaves_key, refuses_key}
use braiker.Market.Cycle.{WatchEntry, Walk, walk_watchlist, after_entry, noted, counts}

module _ (d : Decimal) (n : Number) (hash : Level → RiskPolicy → RiskPolicy → String) where
  abbrev Has : EvaluationKey → MarketDb d.Carrier → Type 0
  Has key db = any (has_key key) db.evaluations ≡ true

  -- The entry has no data, or its evaluation stands.
  abbrev StandsFor : MarketDb d.Carrier → Option (EvaluationInput d.Carrier n.Carrier) → Type 0
  StandsFor db none = Unit
  StandsFor db (some input) = Has (evaluation_key input) db

  abbrev Stands : MarketDb d.Carrier → WatchEntry d.Carrier n.Carrier → Type 0
  Stands db entry = StandsFor db entry.input

  -- What holds of the tables that the rest of the walk leaves holds of those that it leaves.
  after_entry-db :
      (P : MarketDb d.Carrier → Type 0) (symbol : String) (r : Result ScanOutcome)
      (db : MarketDb d.Carrier) (rest : MarketDb d.Carrier → Walk d.Carrier)
      → P db
      → P (rest db).db
      → P (after_entry d n hash symbol r db rest).db
  unfolding after_entry noted
  after_entry-db P symbol (ok outcome) db rest now later = later
  after_entry-db P symbol (throw message) db rest now later = now

  after_entry-none :
      (symbol : String) (r : Result ScanOutcome) (db : MarketDb d.Carrier)
      (rest : MarketDb d.Carrier → Walk d.Carrier)
      → (after_entry d n hash symbol r db rest).thrown ≡ none
      → ((rest db).thrown ≡ none) × ((after_entry d n hash symbol r db rest).db ≡ (rest db).db)
  unfolding after_entry noted
  after_entry-none symbol (ok outcome) db rest h = (h, refl)
  after_entry-none symbol (throw message) db rest h = cc

  walk_keeps :
      (key : EvaluationKey) (entries : List (WatchEntry d.Carrier n.Carrier))
      (db : MarketDb d.Carrier)
      → Has key db
      → Has key (walk_watchlist d n hash entries db).db
  unfolding walk_watchlist noted
  walk_keeps key [] db h = h
  walk_keeps key (entry ∷ entries) db h = elim (Option-cases entry.input) [
    | inl e ↦ rw e (walk_keeps key entries db h)
    | inr (input, e) ↦
        let evaluated = evaluate_bot_for_bar d n hash input db in
        let now = keeps_key d n hash key input db h in
        rw e (
          after_entry-db (Has key) entry.symbol evaluated.0 evaluated.1 _ now
            (walk_keeps key entries evaluated.1 now))
  ]

  abbrev walked :
      String
      → Option (EvaluationInput d.Carrier n.Carrier)
      → List (WatchEntry d.Carrier n.Carrier)
      → MarketDb d.Carrier
      → Walk d.Carrier
  walked symbol input entries db =
      walk_watchlist d n hash (record { symbol = symbol; input = input } ∷ entries) db

  walk_leaves_entry :
      (symbol : String) (found : Option (EvaluationInput d.Carrier n.Carrier))
      (entries : List (WatchEntry d.Carrier n.Carrier)) (db : MarketDb d.Carrier)
      → ((db' : MarketDb d.Carrier)
          → (walk_watchlist d n hash entries db').thrown ≡ none
          → All (Stands (walk_watchlist d n hash entries db').db) entries)
      → (walked symbol found entries db).thrown ≡ none
      → StandsFor (walked symbol found entries db).db found
        × All (Stands (walked symbol found entries db).db) entries
  unfolding walk_watchlist noted
  walk_leaves_entry symbol none entries db leaves h = (tt, leaves db h)
  walk_leaves_entry symbol (some input) entries db leaves h =
      let evaluated = evaluate_bot_for_bar d n hash input db in
      let (h', same) =
        after_entry-none symbol evaluated.0 evaluated.1 (walk_watchlist d n hash entries) h in
      let now = leaves_key d n hash input db in
      (
        subst (Has (evaluation_key input)) (sym same)
            (walk_keeps (evaluation_key input) entries evaluated.1 now),
        subst (λ x. All (Stands x) entries) (sym same) (leaves evaluated.1 h'),
      )

  walk_leaves :
      (entries : List (WatchEntry d.Carrier n.Carrier)) (db : MarketDb d.Carrier)
      → (walk_watchlist d n hash entries db).thrown ≡ none
      → All (Stands (walk_watchlist d n hash entries db).db) entries
  walk_leaves [] db h = tt
  walk_leaves (entry ∷ entries) db h =
      walk_leaves_entry entry.symbol entry.input entries db (walk_leaves entries) h

  Stands-walk :
      (entries : List (WatchEntry d.Carrier n.Carrier)) (db : MarketDb d.Carrier)
      → All (Stands db) entries
      → ((walk_watchlist d n hash entries db).evaluations ≡ 0)
        × ((walk_watchlist d n hash entries db).thrown ≡ none)
        × ((walk_watchlist d n hash entries db).db ≡ db)
  unfolding walk_watchlist noted after_entry counts
  Stands-walk [] db h = (refl, refl, refl)
  Stands-walk (entry ∷ entries) db (h, hs) = elim (Option-cases entry.input) [
    | inl e ↦
        let (zero_new, quiet, same) = Stands-walk entries db hs in
        rw e (omega (arith, zero_new), quiet, same)
    | inr (input, e) ↦
        let stands : Has (evaluation_key input) db = subst (StandsFor db) e h in
        let (zero_new, quiet, same) = Stands-walk entries db hs in
        rw (e, refuses_key d n hash input db stands) (omega (arith, zero_new), quiet, same)
  ]

  -- After a walk over a watchlist that nothing ended early, a second walk on the same candles makes
  -- no new evaluation, is not ended early either, and changes no market table.
  pub walk_watchlist-again :
      (entries : List (WatchEntry d.Carrier n.Carrier)) (db : MarketDb d.Carrier)
      → (walk_watchlist d n hash entries db).thrown ≡ none
      → let again = walk_watchlist d n hash entries (walk_watchlist d n hash entries db).db in
        (again.evaluations ≡ 0)
        × (again.thrown ≡ none)
        × (again.db ≡ (walk_watchlist d n hash entries db).db)
  walk_watchlist-again entries db h = Stands-walk entries _ (walk_leaves entries db h)
