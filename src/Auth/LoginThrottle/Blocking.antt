-- ===== src/Auth/LoginThrottle/Blocking.antt =====
-- Runs of failures through src/modules/auth/login-throttle.ts.
use braiker.Auth.LoginThrottle.{
  LoginThrottleState, login_window_ms, in_window, next_login_throttle, after_attempts,
}
use braiker.Prelude.{
  List, [], ◌∷◌, none, some, Bool, false, ℕ, suc, ◌≡◌, arith, All, ◌<◌, ◌+◌, ◌++◌, if◌then◌else◌,
  leb, length, ◌∙◌,
}

abbrev pub failed_at : List ℕ → List (Bool × ℕ)
failed_at [] = []
failed_at (now ∷ times) = (false, now) ∷ failed_at times

next_failed :
    (limit now : ℕ) (state : LoginThrottleState)
    → now < state.window_started_at + login_window_ms
    → ((next_login_throttle state false now limit).failures ≡ suc state.failures)
      × ((next_login_throttle state false now limit).window_started_at ≡ state.window_started_at)
      × ((next_login_throttle state false now limit).blocked_until
          ≡ (if leb limit (suc state.failures) then some (now + login_window_ms) else none))
unfolding next_login_throttle in_window
next_failed limit now state h = (ground arith, ground arith, ground arith)

-- Failures within the window that the state opened add up: the last of them blocks for a whole
-- window exactly when their number reaches the limit.
pub after_attempts-blocked_until :
    (limit : ℕ) (state : LoginThrottleState) (times : List ℕ) (now : ℕ)
    → All (λ t. t < state.window_started_at + login_window_ms) times
    → now < state.window_started_at + login_window_ms
    → (after_attempts limit state (failed_at (times ++ now ∷ []))).blocked_until ≡ (
        if leb limit (suc (state.failures + length times))
        then some (now + login_window_ms)
        else none)
unfolding after_attempts
after_attempts-blocked_until limit state [] now h h' =
    (next_failed limit now state h').2 ∙ ground arith
after_attempts-blocked_until limit state (t ∷ times) now h h' =
    let (f, w, _) = next_failed limit t state h.0 in
    after_attempts-blocked_until limit (next_login_throttle state false t limit) times now
      (rw w h.1) (rw w h')
    ∙ ground (arith, f)
