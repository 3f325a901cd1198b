-- ===== src/Auth/Session/Throttle.antt =====
-- The throttle's rows of src/modules/auth/session.ts under the outcomes of logins.
use braiker.Auth.Session.{
  Primitives, current_throttle, upsert_throttle, record_login_outcome, is_login_blocked,
  LoginThrottle, is_after, is_blocked_at, has_key, record_outcomes, ThrottleKey,
}
use braiker.Prelude.{
  List, [], ◌∷◌, Option, some, Bool, true, false, ℕ, ◌≡◌, refl, arith, inl, inr, String, ◌<◌,
  str_eq, ◌≢◌, subst, any, Bool-cases, lt→ltb, sym, str_eq_refl, eq_iff, ap, ◌∙◌, ◌++◌, or_true,
}
use braiker.Prelude.Table.{update_rows}
use braiker.Auth.LoginThrottle.{LoginThrottleState, next_login_throttle}
use braiker.Prelude.Sort.{sort_by, insert_by}

other-key :
    (own key other : String)
    → str_eq own key ≡ true
    → str_eq key other ≡ false
    → str_eq own other ≡ false
other-key own key other e ne = subst (λ k. str_eq k other ≡ false) (sym ((eq_iff own key).0 e)) ne

current_throttle-update :
    (key other : String) (state : LoginThrottleState) (now : ℕ) (rows : List LoginThrottle)
    → str_eq key other ≡ false
    → current_throttle other now
        (update_rows (has_key key) (λ (row : LoginThrottle). record row { state = state }) rows)
      ≡ current_throttle other now rows
unfolding current_throttle update_rows
current_throttle-update key other state now [] ne = refl
current_throttle-update key other state now (row ∷ rows) ne = elim (Bool-cases (has_key key row)) [
  | inl e ↦
      rw (e, other-key row.key_hash key other e ne)
        (current_throttle-update key other state now rows ne)
  | inr e ↦ rw e (elim (Bool-cases (has_key other row)) [
    | inl e' ↦ rw e' refl
    | inr e' ↦ rw e' (current_throttle-update key other state now rows ne)
  ])
]

current_throttle-made :
    (key : String) (state : LoginThrottleState) (now : ℕ) (rows : List LoginThrottle)
    → any (has_key key) rows ≡ true
    → current_throttle key now
        (update_rows (has_key key) (λ (row : LoginThrottle). record row { state = state }) rows)
      ≡ state
unfolding current_throttle update_rows
current_throttle-made key state now [] h = cc
current_throttle-made key state now (row ∷ rows) h = elim (Bool-cases (has_key key row)) [
  | inl e ↦ rw (e, e) refl
  | inr e ↦ rw (e, e) (current_throttle-made key state now rows (ground arith))
]

current_throttle-append :
    (key : String) (row : LoginThrottle) (now : ℕ) (rows : List LoginThrottle)
    → any (has_key key) rows ≡ false
    → has_key key row ≡ true
    → current_throttle key now (rows ++ row ∷ []) ≡ row.state
unfolding current_throttle
current_throttle-append key row now [] h e = rw e refl
current_throttle-append key row now (r ∷ rows) h e = elim (Bool-cases (has_key key r)) [
  | inl e' ↦ absurd (ground arith)
  | inr e' ↦ rw e' (current_throttle-append key row now rows (ground arith) e)
]

current_throttle-append-other :
    (other : String) (row : LoginThrottle) (now : ℕ) (rows : List LoginThrottle)
    → has_key other row ≡ false
    → current_throttle other now (rows ++ row ∷ []) ≡ current_throttle other now rows
unfolding current_throttle
current_throttle-append-other other row now [] e = rw e refl
current_throttle-append-other other row now (r ∷ rows) e = elim (Bool-cases (has_key other r)) [
  | inl e' ↦ rw e' refl
  | inr e' ↦ rw e' (current_throttle-append-other other row now rows e)
]

current_throttle-upsert_throttle :
    (key : String) (state : LoginThrottleState) (now : ℕ) (rows : List LoginThrottle)
    → current_throttle key now (upsert_throttle key state rows) ≡ state
unfolding upsert_throttle
current_throttle-upsert_throttle key state now rows = elim (Bool-cases (any (has_key key) rows)) [
  | inl e ↦ rw e (current_throttle-made key state now rows e)
  | inr e ↦ rw e (
      current_throttle-append key record { key_hash = key; state = state } now rows e
        (str_eq_refl key))
]

current_throttle-upsert_throttle-other :
    (key other : String) (state : LoginThrottleState) (now : ℕ) (rows : List LoginThrottle)
    → str_eq key other ≡ false
    → current_throttle other now (upsert_throttle key state rows) ≡ current_throttle other now rows
unfolding upsert_throttle
current_throttle-upsert_throttle-other key other state now rows ne =
    elim (Bool-cases (any (has_key key) rows)) [
      | inl e ↦ rw e (current_throttle-update key other state now rows ne)
      | inr e ↦
          rw e (
            current_throttle-append-other other record { key_hash = key; state = state } now rows
              ne)
    ]

-- Of two keys, the outcome is written on the row of each, in either order.
pub record_login_outcome-first :
    (p : Primitives) (mine other : ThrottleKey) (succeeded : Bool) (now later : ℕ)
    (rows : List LoginThrottle)
    → str_eq other.key mine.key ≡ false
    → current_throttle mine.key later
        (record_login_outcome p (mine ∷ other ∷ []) succeeded now rows)
      ≡ next_login_throttle (current_throttle mine.key now rows) succeeded now mine.limit
unfolding record_login_outcome sort_by insert_by record_outcomes
record_login_outcome-first p mine other succeeded now later rows ne =
    elim (Bool-cases (p.key_le mine.key other.key)) [
      | inl e ↦ rw e (
          current_throttle-upsert_throttle-other other.key mine.key _ later _ ne
          ∙ current_throttle-upsert_throttle mine.key _ later rows)
      | inr e ↦ rw e (
          current_throttle-upsert_throttle mine.key _ later _
          ∙ ap (λ state. next_login_throttle state succeeded now mine.limit)
              (current_throttle-upsert_throttle-other other.key mine.key _ now rows ne))
    ]

is_after-some :
    (now : ℕ) (until : Option ℕ) {at : ℕ} → until ≡ some at → now < at → is_after now until ≡ true
is_after-some now until {at} h lt = rw h (lt→ltb now at lt)

current_throttle-head :
    (key : String) (now : ℕ) (row : LoginThrottle) (rows : List LoginThrottle)
    → has_key key row ≡ true
    → current_throttle key now (row ∷ rows) ≡ row.state
unfolding current_throttle
current_throttle-head key now row rows e = rw e refl

current_throttle-tail :
    (key : String) (now : ℕ) (row : LoginThrottle) (rows : List LoginThrottle)
    → has_key key row ≡ false
    → current_throttle key now (row ∷ rows) ≡ current_throttle key now rows
unfolding current_throttle
current_throttle-tail key now row rows e = rw e refl

no_row : (key : String) (now : ℕ) {at : ℕ} → (current_throttle key now []).blocked_until ≢ some at
unfolding current_throttle
no_row key now h = ground arith

pub is_login_blocked-key :
    (key : String) (keys : List String) (now : ℕ) (rows : List LoginThrottle) {at : ℕ}
    → (current_throttle key now rows).blocked_until ≡ some at
    → now < at
    → is_login_blocked (key ∷ keys) now rows ≡ true
unfolding is_login_blocked is_blocked_at
is_login_blocked-key key keys now [] h lt = absurd (no_row key now h)
is_login_blocked-key key keys now (row ∷ rows) h lt = elim (Bool-cases (has_key key row)) [
  | inl e ↦
      let mine =
        sym (
          ap (λ (s : LoginThrottleState). s.blocked_until)
            (current_throttle-head key now row rows e))
        ∙ h in
      rw (e, is_after-some now row.state.blocked_until mine lt) refl
  | inr e ↦
      let rest = sym (current_throttle-tail key now row rows e) in
      rw
        (is_login_blocked-key key keys now rows
          (ap (λ (s : LoginThrottleState). s.blocked_until) rest ∙ h) lt)
        (or_true _)
]
