-- ===== src/Decimal/Scaled.antt =====
-- A decimal that computes: whole numbers of 10^-12. It shows that what is asked of `Decimal` can be
-- met, and runs the tests.
pub mod Laws
use braiker.Money.{scale, parse_money, format_money}
use braiker.Decimal.{Decimal}
use braiker.Prelude.Text.{Text}
use braiker.Prelude.{Option, none, ◌∷◌, suc, ◌*◌, ◌+◌, ◌/◌, if◌then◌else◌, ◌==◌, some, []}
use braiker.Prelude.Int.{ℤ, ◌+ℤ◌, pos, sub_ℕ, ◌-ℤ◌, negsuc, pos_part, abs, ltb_ℤ, leb_ℤ, neg_part}

-- A leading minus sign.
unfoldable pub signed : Text → Option ℤ
signed [] = none
signed (c ∷ s) =
    if c == b'-'
    then (elim (parse_money s) [ none ↦ none | some n ↦ some (pos 0 -ℤ pos n) ])
    else (elim (parse_money (c ∷ s)) [ none ↦ none | some n ↦ some (pos n) ])

unfoldable pub printed : ℤ → Text
printed (pos n) = format_money n
printed (negsuc n) = b'-' ∷ format_money (suc n)

unfoldable pub product : ℤ → ℤ → ℤ
product a b =
    sub_ℕ ((pos_part a * pos_part b + neg_part a * neg_part b) / scale)
      ((pos_part a * neg_part b + neg_part a * pos_part b) / scale)

unfoldable pub quotient : ℤ → ℤ → ℤ
quotient a b =
    sub_ℕ (pos_part a * scale / pos_part b + neg_part a * scale / neg_part b)
      (pos_part a * scale / neg_part b + neg_part a * scale / pos_part b)

abbrev pub scaled : Decimal
scaled = record {
  Carrier = ℤ;
  of_text = signed;
  to_text = printed;
  zero_value = pos 0;
  one_value = pos scale;
  plus = ◌+ℤ◌;
  minus = ◌-ℤ◌;
  mul = product;
  div = quotient;
  negated = λ a. pos 0 -ℤ a;
  abs_value = λ a. pos (abs a);
  lt = ltb_ℤ;
  lte = leb_ℤ;
  to_places = λ n a. a;
  to_places_down = λ n a. a;
}
