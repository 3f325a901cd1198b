-- ===== src/Auth/LoginThrottle.antt =====
-- src/modules/auth/login-throttle.ts. A date is its number of milliseconds since the epoch.
pub mod Blocking
use braiker.Prelude.{
  List, [], ◌∷◌, Option, none, some, Bool, true, false, ℕ, zero, suc, ◌≡◌, refl, arith, inl, inr,
  ltb, if◌then◌else◌, All, ◌+◌, leb, ◌<◌, map, length,
}

unfoldable pub login_window_ms : ℕ
login_window_ms = 900_000

pub record LoginThrottleState : Type 0 where
  pub failures : ℕ
  pub window_started_at : ℕ
  pub blocked_until : Option ℕ

-- `now - windowStartedAt < LOGIN_WINDOW_MS`: a difference below zero is below the window as well.
unfoldable pub in_window : LoginThrottleState → ℕ → Bool
unfolding login_window_ms
in_window current now = ltb now (current.window_started_at + login_window_ms)

unfoldable pub next_login_throttle : LoginThrottleState → Bool → ℕ → ℕ → LoginThrottleState
next_login_throttle current true now limit = record {
  failures = 0;
  window_started_at = now;
  blocked_until = none;
}
next_login_throttle current false now limit =
    let failures = suc (if in_window current now then current.failures else 0) in
    record {
      failures = failures;
      window_started_at = if in_window current now then current.window_started_at else now;
      blocked_until = if leb limit failures then some (now + login_window_ms) else none;
    }

-- The attempts of one account, the earliest first: each succeeded or failed at a time.
unfoldable pub after_attempts : ℕ → LoginThrottleState → List (Bool × ℕ) → LoginThrottleState
after_attempts limit state [] = state
after_attempts limit state (attempt ∷ attempts) =
    after_attempts limit (next_login_throttle state attempt.0 attempt.1 limit) attempts
