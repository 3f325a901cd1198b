-- ===== src/Risk/Engine/Checks.antt =====
-- When each check of the gate passes, by the kind of check.
use braiker.Domain.{Side, buy, sell, BotStatus, running, is_running, OrderType, limit, market}
use braiker.Decimal.{Decimal, money}
use braiker.Risk.Types.{Proposal, RiskPolicy, RiskContext, Rule, RiskCheck}
use braiker.Risk.Engine.{
  requested_value, plain, checked, within_limit, buys_within, cash_check, decide_checks,
  decision_of, shown, is_buy, no_short_holds, limit_price_holds, holds_quantity, is_positive,
}
use braiker.Prelude.Result.{Result, sequence, ok, throw, >>=-eq-ok, any_result}
use braiker.Prelude.{
  Bool, ◌≡◌, List, ◌↔◌, String, true, all, arith, All, ◌∷◌, [], ap, refl, false, ◌++◌, not, ◌||◌,
  ◌&&◌, Option, some, none,
}
use braiker.Prelude.Text.{Text, literal}

abbrev pub Passes : Result RiskCheck → Type 0
Passes m = (check : RiskCheck) × (m ≡ ok check) × (check.passed ≡ true)

abbrev passes : RiskCheck → Bool
passes check = check.passed

pub sequence-Passes :
    (ms : List (Result RiskCheck)) (checks : List RiskCheck)
    → sequence ms ≡ ok checks
    → (all passes checks ≡ true) ↔ All Passes ms
unfolding sequence
sequence-Passes [] checks h = (λ _. tt, λ _. ground arith)
sequence-Passes (throw e ∷ ms) checks h = cc
sequence-Passes (ok c ∷ ms) checks h =
    let (cs, e, q) = >>=-eq-ok (sequence ms) (λ (xs : List RiskCheck). ok (c ∷ xs)) h in
    let rest = sequence-Passes ms cs e in
    (
      λ p. ((c, refl, ground arith), rest.0 (ground arith)),
      λ p. ground (arith, rest.1 p.1, p.0.1, p.0.2),
    )

pub decide_checks_approves :
    (d : Decimal) (proposal : Proposal) (checks : List RiskCheck)
    → ((decide_checks d proposal checks).is_approved ≡ true) ↔ (all passes checks ≡ true)
unfolding decide_checks decision_of
decide_checks_approves d proposal [] = (λ h. refl, λ h. refl)
decide_checks_approves d proposal (check ∷ checks) =
    ground (arith, decide_checks_approves d proposal checks)

pub plain-Passes : (rule : Rule) (b : Bool) (t : Text) → Passes (plain rule b t) ↔ (b ≡ true)
unfolding plain
plain-Passes rule b t = (λ h. ground (arith, h.1, h.2), λ h. (_, refl, h))

pub checked-Passes :
    (rule : Rule) (m : Result Bool) (t : Text) → Passes (checked rule m t) ↔ (m ≡ ok true)
unfolding checked
checked-Passes rule (ok b) t = (λ h. ground (arith, h.1, h.2), λ h. (_, refl, ground arith))
checked-Passes rule (throw e) t = (λ h. cc h.1, λ h. cc)

pub not-true : {b : Bool} → not b ≡ true → b ≡ false
not-true {b} h = ground arith

pub false-not : {b : Bool} → b ≡ false → not b ≡ true
false-not h = ground arith

pub is_running-true : {s : BotStatus} → is_running s ≡ true → s ≡ running
is_running-true {s} h = ground arith

pub is_running-of : {s : BotStatus} → s ≡ running → is_running s ≡ true
is_running-of h = rw h

pub guard-ok : {a : Side} (b : Bool) → (not (is_buy a) || not (b)) ≡ true → a ≡ buy → b ≡ false
guard-ok {a} b h e = ground arith

pub guard-of : {a : Side} (b : Bool) → (a ≡ buy → b ≡ false) → (not (is_buy a) || not (b)) ≡ true
guard-of {a} b h = ground (arith, h)

pub healthy-ok : {h b : Bool} → (h && not b) ≡ true → (h ≡ true) × (b ≡ false)
healthy-ok {h} {b} e = ground arith

pub healthy-of : {h b : Bool} → h ≡ true → b ≡ false → (h && not b) ≡ true
healthy-of e f = ground arith

module _ (d : Decimal) where
  -- A computed value is within a parsed bound.
  abbrev pub AtMost : Result d.Carrier → Text → Type 0
  AtMost value most =
      (amount : d.Carrier) × (bound : d.Carrier) × (value ≡ ok amount)
      × (money d most ≡ ok bound)
      × (d.lte amount bound ≡ true)

  within_limit-inverse :
      (rule : Rule) (value : Result d.Carrier) (most : Text) (label : String) (check : RiskCheck)
      → within_limit d rule value most label ≡ ok check
      → check.passed ≡ true
      → AtMost value most
  unfolding within_limit
  within_limit-inverse rule value most label check h t =
      let (v, ev, h') = >>=-eq-ok value _ h in
      let (b, eb, h'') = >>=-eq-ok (money d most) _ h' in (v, b, ev, eb, cc (h'', t))

  pub within_limit-Passes :
      (rule : Rule) (value : Result d.Carrier) (most : Text) (label : String)
      → Passes (within_limit d rule value most label) ↔ AtMost value most
  unfolding within_limit
  within_limit-Passes rule value most label = (
    λ p. within_limit-inverse rule value most label p.0 p.1 p.2,
    λ p. (
      record { rule = rule; passed = d.lte p.0 p.1; detail = literal label ++ shown d p.0 },
      rw (p.2, p.3),
      p.4,
    ),
  )

  buys_within-inverse :
      (proposal : Proposal) (policy : RiskPolicy) (available : Text)
      → buys_within d buy proposal policy available ≡ ok true
      → AtMost (requested_value d proposal policy) available
  unfolding buys_within
  buys_within-inverse proposal policy available h =
      let (v, ev, h') = >>=-eq-ok (requested_value d proposal policy) _ h in
      let (b, eb, h'') = >>=-eq-ok (money d available) _ h' in (v, b, ev, eb, cc h'')

  pub buys_within-ok :
      (action : Side) (proposal : Proposal) (policy : RiskPolicy) (available : Text)
      → (buys_within d action proposal policy available ≡ ok true)
        ↔ (action ≡ buy → AtMost (requested_value d proposal policy) available)
  unfolding buys_within
  buys_within-ok sell proposal policy available = (λ h e. cc e, λ h. refl)
  buys_within-ok buy proposal policy available = (
    λ h _. buys_within-inverse proposal policy available h,
    λ h. let r = h refl in rw (r.2, r.3) (ap ok r.4),
  )

  cash_check-inverse :
      (proposal : Proposal) (context : RiskContext) (policy : RiskPolicy) (check : RiskCheck)
      → cash_check d proposal context policy ≡ ok check
      → check.passed ≡ true
      → ((v : d.Carrier) × (requested_value d proposal policy ≡ ok v))
        × (proposal.action ≡ buy → AtMost (requested_value d proposal policy) context.account.cash)
  unfolding cash_check
  cash_check-inverse proposal context policy check h t =
      let (v, ev, h') = >>=-eq-ok (requested_value d proposal policy) _ h in
      let (b, eb, h'') =
        >>=-eq-ok (buys_within d proposal.action proposal policy context.account.cash) _ h' in
      (
        (v, ev),
        (buys_within-ok proposal.action proposal policy context.account.cash).0 (cc (eb, h'', t)),
      )

  pub cash_check-Passes :
      (proposal : Proposal) (context : RiskContext) (policy : RiskPolicy)
      → Passes (cash_check d proposal context policy) ↔ (
          ((v : d.Carrier) × (requested_value d proposal policy ≡ ok v))
          × (proposal.action ≡ buy
              → AtMost (requested_value d proposal policy) context.account.cash))
  unfolding cash_check
  cash_check-Passes proposal context policy = (
    λ p. cash_check-inverse proposal context policy p.0 p.1 p.2,
    λ h. (
      record {
        rule = Rule.available_cash;
        passed = true;
        detail = literal "Required cash: " ++ shown d h.0.0;
      },
      rw (h.0.1, (buys_within-ok proposal.action proposal policy context.account.cash).1 h.1),
      refl,
    ),
  )

  pub limit_price-ok :
      (t : OrderType) (price : Option Text)
      → (limit_price_holds d t price ≡ ok true)
        ↔ (t ≡ limit → (p : Text) × (price ≡ some p) × (is_positive d p ≡ ok true))
  limit_price-ok market price = (λ h e. cc e, λ h. refl)
  limit_price-ok limit none = (λ h. cc h, λ h. cc ((h refl).1))
  limit_price-ok limit (some p) = (λ h e. (p, refl, h), λ h. cc ((h refl).1, (h refl).2))

  pub no_short-ok :
      (allowed : Bool) (action : Side) (context : RiskContext) (proposal : Proposal)
      → (no_short_holds d allowed action context proposal ≡ ok true) ↔ (
          action ≡ sell
          → allowed ≡ false
          → any_result (holds_quantity d proposal) context.positions ≡ ok true)
  no_short-ok true action context proposal = (λ h e e'. cc e', λ h. refl)
  no_short-ok false buy context proposal = (λ h e. cc e, λ h. refl)
  no_short-ok false sell context proposal = (λ h e e'. h, λ h. h refl refl)
