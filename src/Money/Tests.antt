-- ===== src/Money/Tests.antt =====
-- Runs of the money texts.
use braiker.Money.{parse_money, parse_or_throw, format_money, scale}
use braiker.Money.RoundTrip.{parse_money-format_money, parse_or_throw_foreign}
use braiker.Prelude.Text.{text}
use braiker.Prelude.Result.{throw}
use braiker.Prelude.{none, some, ◌≡◌, refl, ◌*◌, ◌+◌}
use braiker.Money.Digits.{is_digit}

parse_money-format_money_example :
    parse_money (format_money (12 * scale + 5)) ≡ some (12 * scale + 5)
parse_money-format_money_example = parse_money-format_money (12 * scale + 5)

parse_or_throw_foreign_example :
    (parse_money (text "5e-9") ≡ none) × (parse_or_throw (text "5e-9") ≡ throw "INVALID_MONEY")
unfolding is_digit
parse_or_throw_foreign_example = parse_or_throw_foreign (text "5e-9") refl
