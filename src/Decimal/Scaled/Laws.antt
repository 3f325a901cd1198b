-- ===== src/Decimal/Scaled/Laws.antt =====
-- The laws of the whole numbers of 10^-12 as decimals.
use braiker.Money.{scale, parse_money, format_money}
use braiker.Money.Digits.{is_digit, print_nat, all-print_nat, print_nat_pos}
use braiker.Money.RoundTrip.{parse_money-format_money}
use braiker.Decimal.{PrintsBack, ColumnLaws, ExactColumns}
use braiker.Decimal.Scaled.{scaled, signed, printed}
use braiker.Prelude.Int.{ℤ, pos, negsuc, ◌+ℤ◌, ◌-ℤ◌, leb_ℤ}
use braiker.Prelude.Text.{Text}
use braiker.Prelude.{[], ◌∷◌, some, true, ℕ, suc, ◌≡◌, arith, all, ◌≤◌, length, ◌++◌, ◌/◌, refl}

signed-digits :
    (w rest : Text) (n : ℕ)
    → all is_digit w ≡ true
    → 1 ≤ length w
    → parse_money (w ++ rest) ≡ some n
    → signed (w ++ rest) ≡ some (pos n)
unfolding signed is_digit
signed-digits [] rest n h l e = absurd (omega arith)
signed-digits (c ∷ w) rest n h l e = ground (arith, e)

signed-format_money : (n : ℕ) → signed (format_money n) ≡ some (pos n)
unfolding format_money
signed-format_money n =
    signed-digits (print_nat (n / scale)) _ n (all-print_nat (n / scale))
      (print_nat_pos (n / scale)) (parse_money-format_money n)

signed-printed : (x : ℤ) → signed (printed x) ≡ some x
unfolding printed signed ◌-ℤ◌
signed-printed (pos n) = signed-format_money n
signed-printed (negsuc n) = rw (parse_money-format_money (suc n)) (ground arith)

pub scaled-PrintsBack : PrintsBack scaled
scaled-PrintsBack = record { reads_back = signed-printed }

fits :
    (a current reserved : ℤ)
    → leb_ℤ a (current -ℤ reserved) ≡ true
    → leb_ℤ (reserved +ℤ a) current ≡ true
unfolding ◌+ℤ◌ ◌-ℤ◌
fits (pos a) (pos c) (pos r) h = ground arith
fits (pos a) (pos c) (negsuc r) h = ground arith
fits (pos a) (negsuc c) (pos r) h = ground arith
fits (pos a) (negsuc c) (negsuc r) h = ground arith
fits (negsuc a) (pos c) (pos r) h = ground arith
fits (negsuc a) (pos c) (negsuc r) h = ground arith
fits (negsuc a) (negsuc c) (pos r) h = ground arith
fits (negsuc a) (negsuc c) (negsuc r) h = ground arith

pub scaled-ColumnLaws : ColumnLaws scaled
scaled-ColumnLaws = record { fits_on_top = fits }

plus_comm : (a b : ℤ) → a +ℤ b ≡ b +ℤ a
unfolding ◌+ℤ◌
plus_comm (pos a) (pos b) = ground arith
plus_comm (pos a) (negsuc b) = ground arith
plus_comm (negsuc a) (pos b) = ground arith
plus_comm (negsuc a) (negsuc b) = ground arith

zero-plus : (a : ℤ) → pos 0 +ℤ a ≡ a
unfolding ◌+ℤ◌
zero-plus (pos a) = ground arith
zero-plus (negsuc a) = ground arith

minus-plus : (a b : ℤ) → (a -ℤ b) +ℤ b ≡ a
unfolding ◌+ℤ◌ ◌-ℤ◌
minus-plus (pos a) (pos b) = ground arith
minus-plus (pos a) (negsuc b) = ground arith
minus-plus (negsuc a) (pos b) = ground arith
minus-plus (negsuc a) (negsuc b) = ground arith

plus-minus : (a b : ℤ) → (a +ℤ b) -ℤ b ≡ a
unfolding ◌+ℤ◌ ◌-ℤ◌
plus-minus (pos a) (pos b) = ground arith
plus-minus (pos a) (negsuc b) = ground arith
plus-minus (negsuc a) (pos b) = ground arith
plus-minus (negsuc a) (negsuc b) = ground arith

plus_assoc : (a b c : ℤ) → (a +ℤ b) +ℤ c ≡ a +ℤ (b +ℤ c)
unfolding ◌+ℤ◌
plus_assoc (pos a) (pos b) (pos c) = ground arith
plus_assoc (pos a) (pos b) (negsuc c) = ground arith
plus_assoc (pos a) (negsuc b) (pos c) = ground arith
plus_assoc (pos a) (negsuc b) (negsuc c) = ground arith
plus_assoc (negsuc a) (pos b) (pos c) = ground arith
plus_assoc (negsuc a) (pos b) (negsuc c) = ground arith
plus_assoc (negsuc a) (negsuc b) (pos c) = ground arith
plus_assoc (negsuc a) (negsuc b) (negsuc c) = ground arith

pub scaled-ExactColumns : ExactColumns scaled
scaled-ExactColumns = record {
  is_column = λ x. refl;
  zero_plus = zero-plus;
  plus_comm = plus_comm;
  plus_assoc = plus_assoc;
  minus_plus = minus-plus;
  plus_minus = plus-minus;
}
