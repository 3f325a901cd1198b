-- ===== src/Market/ScanActivity/Counts.antt =====
-- The counts of an activity's summary.
use braiker.Prelude.{
  ℕ, List, ◌≡◌, ◌∷◌, keep, length, ltb, arith, ◌+◌, [], refl, String, ◌∙◌, map, All, ap, ◌<◌, suc,
  Bool-cases, inl, ltb→lt, inr,
}
use braiker.Market.ScanActivity.{
  missing_market_data, counted, all_parts, parts, outcome_details, BotScanOutcome, OutcomeInput,
  build_bot_scan_activity, ScanOutcome, state_completed, summary, held, no_capital, ai_rejected,
  approved, risk_rejected, already_evaluated,
}
use braiker.Prelude.Text.{Text}

abbrev pub sum_of : List (ℕ × Text) → ℕ
sum_of [] = 0
sum_of (part ∷ rest) = part.0 + sum_of rest

sum_of-keep :
    (ps : List (ℕ × Text)) → sum_of (keep (λ (part : ℕ × Text). ltb 0 part.0) ps) ≡ sum_of ps
sum_of-keep [] = refl
sum_of-keep (p ∷ ps) = ground (arith, sum_of-keep ps)

-- One more item raises one of the seven counts by one.
one_more :
    (symbol : String) (outcome : ScanOutcome) (message : Text) (outcomes : List BotScanOutcome)
    → sum_of
        (all_parts (record { symbol = symbol; outcome = outcome; message = message } ∷ outcomes))
      ≡ suc (sum_of (all_parts outcomes))
unfolding all_parts counted
one_more symbol held message outcomes = omega arith
one_more symbol no_capital message outcomes = omega arith
one_more symbol ai_rejected message outcomes = omega arith
one_more symbol approved message outcomes = omega arith
one_more symbol risk_rejected message outcomes = omega arith
one_more symbol already_evaluated message outcomes = omega arith
one_more symbol missing_market_data message outcomes = omega arith

sum_of-all_parts : (outcomes : List BotScanOutcome) → sum_of (all_parts outcomes) ≡ length outcomes
unfolding all_parts counted
sum_of-all_parts [] = refl
sum_of-all_parts (item ∷ outcomes) =
    one_more item.symbol item.outcome item.message outcomes ∙ ap suc (sum_of-all_parts outcomes)

length-outcome_details :
    (inputs : List OutcomeInput) → length (map outcome_details inputs) ≡ length inputs
length-outcome_details [] = refl
length-outcome_details (input ∷ inputs) = ap suc (length-outcome_details inputs)

symbols-outcome_details :
    (inputs : List OutcomeInput)
    → map (λ (o : BotScanOutcome). o.symbol) (map outcome_details inputs)
      ≡ map (λ (o : OutcomeInput). o.symbol) inputs
unfolding outcome_details
symbols-outcome_details [] = refl
symbols-outcome_details (input ∷ inputs) =
    ap (λ t. input.symbol ∷ t) (symbols-outcome_details inputs)

All-positive :
    (ps : List (ℕ × Text))
    → All (λ (part : ℕ × Text). 0 < part.0) (keep (λ (part : ℕ × Text). ltb 0 part.0) ps)
All-positive [] = tt
All-positive (p ∷ ps) = elim (Bool-cases (ltb 0 p.0)) [
  | inl e ↦ rw e (ltb→lt 0 p.0 e, All-positive ps)
  | inr e ↦ rw e (All-positive ps)
]

-- The activity of a completed analysis keeps the symbols in order, and the parts of its message
-- have positive counts that add up to the number of outcomes.
pub build_bot_scan_activity_counts :
    (inputs : List OutcomeInput)
    → let activity = build_bot_scan_activity state_completed inputs in
      (map (λ (o : BotScanOutcome). o.symbol) activity.outcomes
        ≡ map (λ (o : OutcomeInput). o.symbol) inputs)
      × (activity.message ≡ summary activity.outcomes)
      × (sum_of (parts activity.outcomes) ≡ length inputs)
      × All (λ (part : ℕ × Text). 0 < part.0) (parts activity.outcomes)
unfolding build_bot_scan_activity parts
build_bot_scan_activity_counts inputs = (
  symbols-outcome_details inputs,
  refl,
  sum_of-keep (all_parts (map outcome_details inputs))
      ∙ sum_of-all_parts (map outcome_details inputs)
      ∙ length-outcome_details inputs,
  All-positive (all_parts (map outcome_details inputs)),
)
