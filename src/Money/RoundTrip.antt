-- ===== src/Money/RoundTrip.antt =====
-- Printing and parsing the money texts of src/modules/capital.
use braiker.Prelude.{
  ℕ, ◌+◌, ◌*◌, ◌/◌, ◌%◌, ◌≤◌, ◌≡◌, refl, ap, ◌∙◌, Bool, true, false, ◌&&◌, none, some, [], ◌∷◌,
  ◌++◌, arith, ◌==◌, length, replicate, all, take-append, not, any,
}
use braiker.Prelude.Text.{Text}
use braiker.Prelude.Result.{throw}
use braiker.Money.{
  scale, before_dot, after_dot, is_money, parse_money, parse_or_throw, format_money, is_fraction,
}
use braiker.Money.Digits.{
  is_digit, digits_value, print_nat, pad_start, digits_value-print_nat, all-print_nat,
  length-print_nat, print_nat_pos, digits_value-pad_start, all-pad_start, length-pad_start,
}

module _ (f : Text) where
  before_dot-digits : (w : Text) → all is_digit w ≡ true → before_dot (w ++ b'.' ∷ f) ≡ w
  unfolding before_dot is_digit
  before_dot-digits [] h = refl
  before_dot-digits (c ∷ w) h = ground (arith, before_dot-digits w)

  after_dot-digits : (w : Text) → all is_digit w ≡ true → after_dot (w ++ b'.' ∷ f) ≡ some f
  unfolding after_dot is_digit
  after_dot-digits [] h = refl
  after_dot-digits (c ∷ w) h = ground (arith, after_dot-digits w)

-- Digits, a dot and twelve digits are money text, and their value is read off.
parse_money-parts :
    (w f : Text)
    → all is_digit w ≡ true
    → 1 ≤ length w
    → all is_digit f ≡ true
    → length f ≡ 12
    → parse_money (w ++ b'.' ∷ f) ≡ some (digits_value w * scale + digits_value f)
unfolding parse_money is_money
parse_money-parts w f hw lw hf lf =
    simp
      (
        before_dot-digits f w hw,
        after_dot-digits f w hw,
        take-append 12 f (replicate 12 b'0') lf,
        hw,
        hf,
      )
      (ground arith)

-- Every amount survives printing and parsing.
pub parse_money-format_money : (v : ℕ) → parse_money (format_money v) ≡ some v
unfolding format_money
parse_money-format_money v =
    parse_money-parts (print_nat (v / scale)) (pad_start 12 (print_nat (v % scale)))
      (all-print_nat (v / scale)) (print_nat_pos (v / scale))
      (all-pad_start 12 _ (all-print_nat (v % scale)))
      (length-pad_start 12 _ (length-print_nat 11 (v % scale) (omega arith)))
    ∙ ap some (simp (digits_value-pad_start, digits_value-print_nat) (omega arith))

-- A code unit that no money text holds.
abbrev is_foreign : ℕ → Bool
is_foreign c = not (is_digit c) && not (c == b'.')

digits-foreign : (s : Text) → all is_digit s ≡ true → any is_foreign s ≡ false
unfolding is_digit
digits-foreign [] h = refl
digits-foreign (c ∷ s) h = ground (arith, digits-foreign s)

parts-foreign :
    (s : Text)
    → all is_digit (before_dot s) ≡ true
    → is_fraction (after_dot s) ≡ true
    → any is_foreign s ≡ false
unfolding before_dot after_dot is_digit is_fraction
parts-foreign [] h g = refl
parts-foreign (c ∷ s) h g = ground (arith, parts-foreign s, digits-foreign s)

-- A text with any code unit but digits and dots, such as the exponent of "5e-9" or a minus sign, is
-- refused by both readers of money texts of capital, strategy and bots: parse_money finds no amount
-- and parse_or_throw throws INVALID_MONEY.
pub parse_or_throw_foreign :
    (s : Text)
    → any is_foreign s ≡ true
    → (parse_money s ≡ none) × (parse_or_throw s ≡ throw "INVALID_MONEY")
unfolding parse_or_throw parse_money is_money
parse_or_throw_foreign s h = ground (arith, parts-foreign s)
