-- ===== src/Decimal.antt =====
-- `Prisma.Decimal`, which is the third-party decimal.js, and MySQL's DECIMAL columns: a parameter of
-- the model. `none` from `of_text` is the constructor's throw.
pub mod Scaled
use braiker.Prelude.{ℕ, Bool, Option, ◌≡◌, true, if◌then◌else◌, some}
use braiker.Prelude.Text.{Text}
use braiker.Prelude.Result.{Result, or_throw}

pub record Decimal : Type 1 where
  pub Carrier : Type 0
  pub of_text : Text → Option Carrier
  pub to_text : Carrier → Text
  pub zero_value : Carrier
  pub one_value : Carrier
  pub plus : Carrier → Carrier → Carrier
  pub minus : Carrier → Carrier → Carrier
  pub mul : Carrier → Carrier → Carrier
  pub div : Carrier → Carrier → Carrier
  pub negated : Carrier → Carrier
  pub abs_value : Carrier → Carrier
  pub lt : Carrier → Carrier → Bool
  pub lte : Carrier → Carrier → Bool
  pub to_places : ℕ → Carrier → Carrier
  pub to_places_down : ℕ → Carrier → Carrier

-- `new Prisma.Decimal(value)`
module _ (d : Decimal) where
  unfoldable pub money : Text → Result d.Carrier
  money value = or_throw (d.of_text value) "[DecimalError] Invalid argument"

  -- `Prisma.Decimal.max(a, b)`
  unfoldable pub max_value : d.Carrier → d.Carrier → d.Carrier
  max_value a b = if d.lt a b then b else a

  -- What a value printed by `toString` reads back as: documented of every finite value.
  pub record PrintsBack : Type 0 where
    pub reads_back : (x : d.Carrier) → d.of_text (d.to_text x) ≡ some x

  -- The arithmetic of a DECIMAL(28, 12) column, which is exact: an amount that fits into a difference
  -- fits on top of the subtrahend, also once the sum is rounded to the column's places.
  pub record ColumnLaws : Type 0 where
    pub fits_on_top :
        (a current reserved : d.Carrier)
        → d.lte a (d.minus current reserved) ≡ true
        → d.lte (d.to_places 12 (d.plus reserved a)) current ≡ true

  -- The exact arithmetic of the amounts of DECIMAL(28, 12) columns.
  pub record ExactColumns : Type 0 where
    pub is_column : (x : d.Carrier) → d.to_places 12 x ≡ x
    pub zero_plus : (x : d.Carrier) → d.plus d.zero_value x ≡ x
    pub plus_comm : (x y : d.Carrier) → d.plus x y ≡ d.plus y x
    pub plus_assoc : (x y z : d.Carrier) → d.plus (d.plus x y) z ≡ d.plus x (d.plus y z)
    pub minus_plus : (x y : d.Carrier) → d.plus (d.minus x y) y ≡ x
    pub plus_minus : (x y : d.Carrier) → d.minus (d.plus x y) y ≡ x
