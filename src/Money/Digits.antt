-- ===== src/Money/Digits.antt =====
-- Decimal digits: `BigInt(text)` on a text of digits, `BigInt.prototype.toString`, `padStart`.
use braiker.Prelude.{
  ℕ, zero, suc, ◌+◌, ◌-◌, ◌*◌, ◌/◌, ◌%◌, ◌^◌, ◌≤◌, ◌<◌, ◌≡◌, refl, ap, ◌∙◌, inl, inr, Bool, true,
  ◌&&◌, [], ◌∷◌, ◌++◌, arith, ltb, leb, if◌then◌else◌, lt→ltb, Bool-cases, length, replicate, all,
  length-append, length-replicate,
}
use braiker.Prelude.Text.{Text}
use native.Mathlib.Nat.{pow-suc, div-lt_iff_lt-mul}

-- `\d`
unfoldable pub is_digit : ℕ → Bool
is_digit c = leb b'0' c && leb c b'9'

unfoldable pub value_from : ℕ → Text → ℕ
value_from acc [] = acc
value_from acc (c ∷ s) = value_from (acc * 10 + (c - b'0')) s

unfoldable pub digits_value : Text → ℕ
unfolding value_from
digits_value s = value_from 0 s

-- The digits of `n` in front of `acc`; what a `let` binds waits, so the fuel is used as needed.
unfoldable pub digits_from : ℕ → ℕ → Text → Text
digits_from zero n acc = acc
digits_from (suc f) n acc =
    let rest = digits_from f (n / 10) ((b'0' + n % 10) ∷ acc) in
    if ltb n 10 then (b'0' + n) ∷ acc else rest

-- A number has fewer digits than its value plus one, so the fuel is enough.
unfoldable pub print_nat : ℕ → Text
unfolding digits_from
print_nat n = digits_from (suc n) n []

unfoldable pub pad_start : ℕ → Text → Text
pad_start k s = replicate (k - length s) b'0' ++ s

value_from-digits_from :
    (f n : ℕ) (acc : Text) → n < f → value_from 0 (digits_from f n acc) ≡ value_from n acc
unfolding value_from digits_from
value_from-digits_from zero n acc h = elim h [ ]
value_from-digits_from (suc f) n acc h = elim (Bool-cases (ltb n 10)) [
  | inl small ↦ rw small (ap (λ t. value_from t acc) (omega arith))
  | inr big ↦ rw big (
      value_from-digits_from f (n / 10) _ (ground arith) ∙ ap (λ t. value_from t acc) (omega arith))
]

-- `BigInt(x.toString())` is `x`.
pub digits_value-print_nat : (n : ℕ) → digits_value (print_nat n) ≡ n
unfolding digits_value print_nat
digits_value-print_nat n = value_from-digits_from (suc n) n [] (omega arith)

all-digits_from :
    (f n : ℕ) (acc : Text)
    → n < f
    → all is_digit acc ≡ true
    → all is_digit (digits_from f n acc) ≡ true
unfolding is_digit digits_from
all-digits_from zero n acc h p = p
all-digits_from (suc f) n acc h p = elim (Bool-cases (ltb n 10)) [
  | inl small ↦ ground arith
  | inr big ↦ rw big (all-digits_from f (n / 10) _ (ground arith) (ground arith))
]

pub all-print_nat : (n : ℕ) → all is_digit (print_nat n) ≡ true
unfolding print_nat
all-print_nat n = all-digits_from (suc n) n [] (omega arith) refl

div_ten_bound : (k n : ℕ) → n < 10 ^ suc k → n / 10 < 10 ^ k
div_ten_bound k n h = (div-lt_iff_lt-mul (omega arith)).1 (rw (← pow-suc 10 k) h)

-- Below 10^(k+1) at most k+1 digits are printed.
length-digits_from :
    (k f n : ℕ) (acc : Text)
    → n < 10 ^ suc k
    → n < f
    → length (digits_from f n acc) ≤ length acc + k + 1
unfolding digits_from
length-digits_from k zero n acc h p = elim p [ ]
length-digits_from zero (suc f) n acc h p = rw (lt→ltb n 10 h) (omega arith)
length-digits_from (suc k) (suc f) n acc h p =
    let next =
      length-digits_from k f (n / 10) ((b'0' + n % 10) ∷ acc) (div_ten_bound (suc k) n h) in
    elim (Bool-cases (ltb n 10)) [
      | inl small ↦ rw small (omega arith)
      | inr big ↦ rw big (omega (arith, next (ground arith)))
    ]

pub length-print_nat : (k n : ℕ) → n < 10 ^ suc k → length (print_nat n) ≤ k + 1
unfolding print_nat
length-print_nat k n h = omega (arith, length-digits_from k (suc n) n [] h (omega arith))

some_digits : (f n : ℕ) (acc : Text) → length acc ≤ length (digits_from f n acc)
unfolding digits_from
some_digits zero n acc = omega arith
some_digits (suc f) n acc = ground (arith, some_digits f (n / 10) ((b'0' + n % 10) ∷ acc))

pub print_nat_pos : (n : ℕ) → 1 ≤ length (print_nat n)
unfolding print_nat digits_from
print_nat_pos n = ground (arith, some_digits n (n / 10) ((b'0' + n % 10) ∷ []))

value_from-zeros : (k : ℕ) (s : Text) → value_from 0 (replicate k b'0' ++ s) ≡ value_from 0 s
unfolding value_from
value_from-zeros zero s = refl
value_from-zeros (suc k) s = value_from-zeros k s

-- Padding changes no value.
pub digits_value-pad_start : (k : ℕ) (s : Text) → digits_value (pad_start k s) ≡ digits_value s
unfolding digits_value pad_start
digits_value-pad_start k s = value_from-zeros (k - length s) s

all-zeros : (k : ℕ) (s : Text) → all is_digit s ≡ true → all is_digit (replicate k b'0' ++ s) ≡ true
unfolding is_digit
all-zeros zero s h = h
all-zeros (suc k) s h = all-zeros k s h

pub all-pad_start : (k : ℕ) (s : Text) → all is_digit s ≡ true → all is_digit (pad_start k s) ≡ true
unfolding pad_start
all-pad_start k s h = all-zeros (k - length s) s h

pub length-pad_start : (k : ℕ) (s : Text) → length s ≤ k → length (pad_start k s) ≡ k
unfolding pad_start
length-pad_start k s h = omega (
  arith,
  length-append (replicate (k - length s) b'0') s,
  length-replicate {A = ℕ} (k - length s) b'0',
)
