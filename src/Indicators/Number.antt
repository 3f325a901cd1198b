-- ===== src/Indicators/Number.antt =====
-- JavaScript's numbers, which are IEEE doubles: a parameter of the model. `of_text` is `Number(text)`.
use braiker.Prelude.{ℕ, Bool}
use braiker.Prelude.Text.{Text}

pub record Number : Type 1 where
  pub Carrier : Type 0
  pub of_text : Text → Carrier
  pub of_ℕ : ℕ → Carrier
  pub plus : Carrier → Carrier → Carrier
  pub minus : Carrier → Carrier → Carrier
  pub mul : Carrier → Carrier → Carrier
  pub div : Carrier → Carrier → Carrier
  pub abs_value : Carrier → Carrier
  pub max_of : Carrier → Carrier → Carrier
  pub min_of : Carrier → Carrier → Carrier
  pub lt : Carrier → Carrier → Bool
  pub lte : Carrier → Carrier → Bool
  pub is_zero : Carrier → Bool
  -- `Math.round`
  pub rounded : Carrier → ℕ
