-- ===== src/Auth/Session/Password.antt =====
-- src/modules/auth/authorization.ts: what a new password must be.
use braiker.Prelude.Text.{Text}
use braiker.Prelude.{
  Option, none, some, Bool, ℕ, leb, String, ◌&&◌, if◌then◌else◌, ltb, length, not, any, ◌||◌,
}

-- `/[a-z]/`, `/[A-Z]/` and `/\d/` on one code unit
abbrev pub is_lower : ℕ → Bool
is_lower c = leb 97 c && leb c 122

abbrev pub is_upper : ℕ → Bool
is_upper c = leb 65 c && leb c 90

abbrev pub is_digit : ℕ → Bool
is_digit c = leb 48 c && leb c 57

unfoldable pub password_policy_error : Text → Option String
password_policy_error password =
    if ltb (length password) 12
    then some "Password must have at least 12 characters"
    else if not (any is_lower password)
        || not (any is_upper password)
        || not (any is_digit password)
    then some "Password must include upper-case, lower-case, and a number"
    else none
