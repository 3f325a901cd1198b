-- ===== src/Money.antt =====
-- Money text, which modules/capital, modules/strategy and modules/bots read and print alike: a
-- decimal string with at most twelve decimals stands for a BigInt in units of 10^-12. A BigInt is
-- a number here, since no text that `parse_money` accepts is negative.
pub mod Digits
pub mod RoundTrip
mod Tests
use braiker.Prelude.{
  ℕ, ◌+◌, ◌*◌, ◌/◌, ◌%◌, Bool, true, ◌&&◌, Option, none, some, List, [], ◌∷◌, ◌++◌, ltb, leb, ◌==◌,
  if◌then◌else◌, length, take, replicate, all,
}
use braiker.Prelude.Text.{Text}
use braiker.Prelude.Result.{Result, or_throw}
use Digits.{is_digit, digits_value, print_nat, pad_start}

-- `SCALE`
abbrev pub scale : ℕ
scale = 1_000_000_000_000

-- The parts of `value.split(".")`: what stands before the first dot, and after it.
unfoldable pub before_dot : Text → Text
before_dot [] = []
before_dot (c ∷ s) = if c == b'.' then [] else c ∷ before_dot s

unfoldable pub after_dot : Text → Option Text
after_dot [] = none
after_dot (c ∷ s) = if c == b'.' then some s else after_dot s

-- `/^\d+(\.\d{1,12})?$/.test(value)`; a second dot would be no digit of the fraction.
unfoldable pub is_fraction : Option Text → Bool
is_fraction none = true
is_fraction (some f) = leb 1 (length f) && leb (length f) 12 && all is_digit f

unfoldable pub is_money : Text → Bool
unfolding is_fraction
is_money value =
    leb 1 (length (before_dot value))
    && all is_digit (before_dot value)
    && is_fraction (after_dot value)

-- `const [whole, fraction = ""] = value.split(".")`
abbrev or_empty : Option Text → Text
or_empty none = []
or_empty (some f) = f

-- `(fraction + "000000000000").slice(0, 12)`
abbrev twelve_places : Text → Text
twelve_places f = take 12 (f ++ replicate 12 b'0')

unfoldable pub parse_money : Text → Option ℕ
parse_money value =
    if is_money value
    then some (
        digits_value (before_dot value) * scale
        + digits_value (twelve_places (or_empty (after_dot value))))
    else none

-- `parse` of fill-accounting.ts, `parseMoney` of operating-cost-policy.ts, `parseDecimal` of
-- survival-state.ts: the same, but what is no money throws.
unfoldable pub parse_or_throw : Text → Result ℕ
parse_or_throw value = or_throw (parse_money value) "INVALID_MONEY"

unfoldable pub format_money : ℕ → Text
format_money value = print_nat (value / scale) ++ b'.' ∷ pad_start 12 (print_nat (value % scale))
