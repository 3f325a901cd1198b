-- ===== src/Bots/Survival/Bands.antt =====
-- The scores of src/modules/bots/survival-state.ts in the order of the capital.
use braiker.Domain.{LifeStatus}
use braiker.Bots.Survival.{
  states, band, derive_bot_survival_state, SurvivalInput, SurvivalState, banded, living, of_life,
  with_power_state, analysed,
}
use braiker.Prelude.{
  Option, none, some, ℕ, arith, ◌≤◌, ◌≡◌, String, inl, inr, subst, sym, ◌∙◌, Bool-cases, str_eq,
}
use braiker.Prelude.Text.{Text}
use braiker.Money.{parse_or_throw}
use braiker.Prelude.Result.{ok, Result-cases, >>=-eq-ok, ok-injective}

abbrev pub score_or_zero : Option ℕ → ℕ
score_or_zero none = 0
score_or_zero (some n) = n

band_mono :
    (initial current current' : ℕ)
    → current ≤ current'
    → score_or_zero (states (band initial current)).score
      ≤ score_or_zero (states (band initial current')).score
unfolding band states
band_mono initial current current' h = ground arith

-- The parts of one bot's two readings.
module _ (input : SurvivalInput) (less more : Text) (m n : ℕ) where
  with_less : SurvivalInput
  with_less = record input { current_capital = less }

  with_more : SurvivalInput
  with_more = record input { current_capital = more }

  banded_mono :
      (reserved : ℕ) (state state' : SurvivalState)
      → parse_or_throw less ≡ ok m
      → parse_or_throw more ≡ ok n
      → m ≤ n
      → banded with_less reserved ≡ ok state
      → banded with_more reserved ≡ ok state'
      → score_or_zero state.score ≤ score_or_zero state'.score
  unfolding banded with_less with_more
  banded_mono reserved state state' e e' h r r' =
      elim (Result-cases (parse_or_throw input.initial_capital)) [
        | inl (initial, ei) ↦ ground (arith, e, e', ei, band_mono initial m n h)
        | inr (x, ei) ↦ ground (arith, e, e', ei)
      ]

  analysed_mono :
      (state state' : SurvivalState)
      → parse_or_throw less ≡ ok m
      → parse_or_throw more ≡ ok n
      → m ≤ n
      → analysed with_less ≡ ok state
      → analysed with_more ≡ ok state'
      → score_or_zero state.score ≤ score_or_zero state'.score
  unfolding analysed with_less with_more
  analysed_mono state state' e e' h r r' =
      let (reserved, v, b) = >>=-eq-ok (parse_or_throw input.reserved_capital) _ r in
      let (reserved', v', b') = >>=-eq-ok (parse_or_throw input.reserved_capital) _ r' in
      banded_mono reserved state state' e e' h b
        (subst (λ x. banded with_more x ≡ ok state') (ok-injective (sym v' ∙ v)) b')

  living_mono :
      (at : Option String) (state state' : SurvivalState)
      → parse_or_throw less ≡ ok m
      → parse_or_throw more ≡ ok n
      → m ≤ n
      → living with_less at ≡ ok state
      → living with_more at ≡ ok state'
      → score_or_zero state.score ≤ score_or_zero state'.score
  unfolding living with_less with_more
  living_mono none state state' e e' h r r' = ground arith
  living_mono (some at) state state' e e' h r r' = elim (Bool-cases (str_eq at "")) [
    | inl blank ↦ ground (arith, blank)
    | inr given ↦ analysed_mono state state' e e' h (ground (arith, given)) (ground (arith, given))
  ]

  of_life_mono :
      (life : LifeStatus) (state state' : SurvivalState)
      → parse_or_throw less ≡ ok m
      → parse_or_throw more ≡ ok n
      → m ≤ n
      → of_life with_less life ≡ ok state
      → of_life with_more life ≡ ok state'
      → score_or_zero state.score ≤ score_or_zero state'.score
  unfolding of_life with_power_state with_less with_more
  of_life_mono LifeStatus.dead state state' e e' h r r' = ground arith
  of_life_mono LifeStatus.active state state' e e' h r r' =
      let (s, v, b) = >>=-eq-ok (living with_less input.last_analysis_at) _ r in
      let (s', v', b') = >>=-eq-ok (living with_more input.last_analysis_at) _ r' in
      let le = living_mono input.last_analysis_at s s' e e' h v v' in ground (arith, le, b, b')

-- Of two readings of one bot that differ in its current capital alone, if both return, the one with
-- more capital has no lower score, where a missing score counts as zero.
pub derive_bot_survival_state_mono :
    (input : SurvivalInput) (less more : Text) (m n : ℕ) (state state' : SurvivalState)
    → parse_or_throw less ≡ ok m
    → parse_or_throw more ≡ ok n
    → m ≤ n
    → derive_bot_survival_state (record input { current_capital = less }) ≡ ok state
    → derive_bot_survival_state (record input { current_capital = more }) ≡ ok state'
    → score_or_zero state.score ≤ score_or_zero state'.score
unfolding derive_bot_survival_state with_less with_more
derive_bot_survival_state_mono input less more m n state state' e e' h r r' =
    of_life_mono input less more m n input.life_status state state' e e' h r r'
