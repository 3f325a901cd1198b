-- ===== src/Scheduler/Policy/Cron.antt =====
-- The cron texts of src/modules/scheduler/schedule-policy.ts, and the minutes they are due in.
use braiker.Prelude.{
  ℕ, any, ◌≡◌, inl, ◌==◌, ◌⊎◌, subst, arith, sym, inr, true, List, some, ◌∷◌, ◌↔◌, refl, ◌∙◌, ap,
  if◌then◌else◌, [], ◌/◌, ◌%◌, and-true, if-some, not, All, ◌++◌,
}
use braiker.Prelude.Text.{same_text, Text, text}
use braiker.Scheduler.Policy.{
  supported_intervals, reconciliation_cron, interval_from_cron, interval_among,
  is_interval_cron_due, every_minutes, is_due_every, utc_minutes, interval_digits,
}
use braiker.Prelude.Result.{ok, ok-injective, throw_if->>}
use braiker.Money.Digits.{print_nat, digits_value, value_from}

same_text-eq : (s t : Text) → same_text s t ≡ true → s ≡ t
unfolding same_text
same_text-eq [] [] h = refl
same_text-eq [] (c ∷ t) h = cc
same_text-eq (c ∷ s) [] h = cc
same_text-eq (c ∷ s) (b ∷ t) h =
    let (head, tail) = and-true (c == b) _ h in
    let same : c ≡ b = ground arith in cc (same, same_text-eq s t tail)

abbrev Supported : ℕ → Type 0
Supported n = any (λ m. m == n) supported_intervals ≡ true

Supported-cases : (n : ℕ) → Supported n → (n ≡ 1) ⊎ (n ≡ 5) ⊎ (n ≡ 15) ⊎ (n ≡ 30) ⊎ (n ≡ 60)
Supported-cases n h = ground arith

-- Of a supported interval, by the five it may be.
by_interval : (P : ℕ → Type 0) (n : ℕ) → P 1 → P 5 → P 15 → P 30 → P 60 → Supported n → P n
by_interval P n p1 p5 p15 p30 p60 h = elim (Supported-cases n h) [
  | inl e ↦ subst P (sym e) p1
  | inr (inl e) ↦ subst P (sym e) p5
  | inr (inr (inl e)) ↦ subst P (sym e) p15
  | inr (inr (inr (inl e))) ↦ subst P (sym e) p30
  | inr (inr (inr (inr e))) ↦ subst P (sym e) p60
]

cron_of : ℕ → Text
cron_of n = if n == 60 then text "0 * * * *" else every_minutes n

reconciliation_cron-ok :
    (n : ℕ) (s : Text) → reconciliation_cron n ≡ ok s → Supported n × (s ≡ cron_of n)
unfolding reconciliation_cron cron_of
reconciliation_cron-ok n s h =
    let (within, made) = throw_if->> (not (any (λ m. m == n) supported_intervals)) _ _ h in
    (ground (arith, within), sym (ok-injective made))

Supported-reconciliation_cron : (n : ℕ) → Supported n → reconciliation_cron n ≡ ok (cron_of n)
unfolding reconciliation_cron cron_of
Supported-reconciliation_cron n h = rw h refl

reads_back : (n : ℕ) → Supported n → interval_from_cron (cron_of n) ≡ some n
unfolding interval_from_cron interval_among every_minutes same_text print_nat cron_of digits_value
    value_from
reads_back n = by_interval (λ m. interval_from_cron (cron_of m) ≡ some m) n refl refl refl refl refl

-- The expression around an alternative is the text that the interval of its digits is written as.
abbrev IsWritten : Text → Type 0
IsWritten digits =
    Supported (digits_value digits)
    × (text "*/" ++ digits ++ text " * * * *" ≡ cron_of (digits_value digits))

All-IsWritten : All IsWritten interval_digits
unfolding cron_of every_minutes print_nat digits_value value_from
All-IsWritten = ((refl, refl), ((refl, refl), ((refl, refl), ((refl, refl), tt))))

interval_among-cron_of :
    (alternatives : List Text) (s : Text) (n : ℕ)
    → All IsWritten alternatives
    → interval_among alternatives s ≡ some n
    → Supported n × (s ≡ cron_of n)
unfolding interval_among
interval_among-cron_of [] s n written h = cc
interval_among-cron_of (digits ∷ alternatives) s n written h =
    elim (if-some (same_text s (text "*/" ++ digits ++ text " * * * *")) (digits_value digits) n
      (interval_among alternatives s) h) [
        | inl (at, same) ↦
            subst (λ m. Supported m × (s ≡ cron_of m)) same
              (written.0.0, same_text-eq s _ at ∙ written.0.1)
        | inr (_, later) ↦ interval_among-cron_of alternatives s n written.1 later
      ]

interval_from_cron-cron_of :
    (s : Text) (n : ℕ) → interval_from_cron s ≡ some n → Supported n × (s ≡ cron_of n)
unfolding interval_from_cron
interval_from_cron-cron_of s n h = elim (if-some (same_text s (text "0 * * * *")) 60 n _ h) [
  | inl (at, same) ↦
      subst (λ m. Supported m × (s ≡ cron_of m)) same
        (refl, unfold cron_of in same_text-eq s (text "0 * * * *") at)
  | inr (_, later) ↦ interval_among-cron_of interval_digits s n All-IsWritten later
]

-- A text reads as an interval exactly when it is the text that the interval is written as.
pub interval_from_cron-reconciliation_cron :
    (s : Text) (n : ℕ) → (interval_from_cron s ≡ some n) ↔ (reconciliation_cron n ≡ ok s)
interval_from_cron-reconciliation_cron s n = (
  λ h.
      let (h1, h2) = interval_from_cron-cron_of s n h in
      Supported-reconciliation_cron n h1 ∙ ap ok (sym h2),
  λ h. let (h1, h2) = reconciliation_cron-ok n s h in ap interval_from_cron h2 ∙ reads_back n h1,
)

-- The text of a supported interval is due exactly in the minutes since the epoch that are multiples
-- of the interval.
pub is_interval_cron_due_when :
    (n : ℕ) (s : Text) (now : ℕ)
    → reconciliation_cron n ≡ ok s
    → (is_interval_cron_due s now ≡ true) ↔ (now / 60_000 % n ≡ 0)
unfolding is_interval_cron_due is_due_every utc_minutes
is_interval_cron_due_when n s now h =
    let back = (interval_from_cron-reconciliation_cron s n).1 h in
    rw back (
      by_interval (λ n. (is_due_every (some n) now ≡ true) ↔ (now / 60_000 % n ≡ 0)) n
        (λ h. ground arith, λ h. ground arith) (λ h. ground arith, λ h. ground arith)
        (λ h. ground arith, λ h. ground arith) (λ h. ground arith, λ h. ground arith)
        (λ h. ground arith, λ h. ground arith) (reconciliation_cron-ok n s h).0)
