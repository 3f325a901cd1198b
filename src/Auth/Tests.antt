-- ===== src/Auth/Tests.antt =====
-- Runs of src/modules/auth.
use braiker.Auth.Session.{
  authenticate, current_throttle, is_blocked_at, is_login_blocked, record_login_outcome,
  record_outcomes, session_for, session_ms, throttle_keys, upsert_throttle, verify, with_outcome,
  success, blocked, Primitives, User, Session, AuthDb, Login, has_email, has_user_id,
}
use braiker.Auth.LoginThrottle.{
  after_attempts, login_window_ms, LoginThrottleState, in_window, next_login_throttle,
}
use braiker.Auth.Session.Access.{
  allow_member, can_manage_users, can_manage_wallet, can_modify_user, can_operate_bot,
  change_password, changed_password, current_user, matches, refuse_temporary, require_user,
  require_wallet_role, revoke_session, session_user, temporary_password_access_error,
  PasswordChange,
}
use braiker.Auth.Session.Password.{password_policy_error}
use braiker.Prelude.Result.{ok}
use braiker.Prelude.Text.{text, same_text}
use braiker.Prelude.Sort.{insert_by, sort_by}
use braiker.Prelude.Table.{update_rows}
use braiker.Domain.{admin, viewer}
use braiker.Prelude.{
  List, [], ◌∷◌, none, some, ℕ, ◌≡◌, arith, ◌++◌, ◌+◌, String, All, ◌<◌, ◌≢◌, true, false, find,
  refl, if-some, inl, subst, inr,
}
use braiker.Auth.Session.Lockout.{AreRefused, authenticates, authenticate-Lockout, times}
use braiker.Auth.Session.Cookie.{StandsFor, change_password-ends, authenticate-current_user}

abbrev one_more : List ℕ
one_more = 2000 ∷ []

abbrev two_failures : LoginThrottleState
two_failures = record { failures = 2; window_started_at = 1000; blocked_until = none }

-- Hashes that are the texts themselves, under a prefix for a client's address.
abbrev primitives : Primitives
primitives = record {
  key_le = λ a b. true;
  token_hash = λ token. token;
  email_key = λ email. email;
  ip_key = λ ip. "ip";
  normalized = λ email. email;
  compare = λ password hash. same_text password (text hash);
}

abbrev ada : User
ada = record {
  id = "u1";
  email = "ada@example.com";
  password_hash = "Correct-horse-1";
  role = admin;
  must_change_password = true;
}

abbrev eve_session : Session
eve_session = record { user_id = "u2"; token_hash = "eve"; expires_at = 9_000 }

abbrev eve : User
eve = record {
  id = "u2";
  email = "eve@example.com";
  password_hash = "Battery-staple-2";
  role = viewer;
  must_change_password = false;
}

abbrev accounts : AuthDb
accounts = record {
  users = ada ∷ eve ∷ [];
  sessions = eve_session ∷ [];
  throttles = [];
  members = [];
}

abbrev login_at : String → ℕ → Login
login_at password now = record {
  email = "ada@example.com";
  password = text password;
  client_ip = "10.0.0.1";
  throttle = true;
  token = "t1";
  now = now;
  created_at = now;
}

abbrev wrong : ℕ → Login
wrong now = login_at "guess" now

abbrev wrongs : List Login
wrongs = wrong 2 ∷ wrong 3 ∷ wrong 4 ∷ []

five_refused : AreRefused primitives "ada@example.com" (wrong 1 ∷ wrongs ++ wrong 5 ∷ []) accounts
unfolding in_window next_login_throttle session_ms is_blocked_at is_login_blocked current_throttle
    upsert_throttle record_outcomes record_login_outcome throttle_keys session_for with_outcome
    verify authenticate login_window_ms after_attempts same_text update_rows insert_by sort_by
five_refused = (
  (refl, refl, refl, refl),
  (
    (refl, refl, refl, refl),
    ((refl, refl, refl, refl), ((refl, refl, refl, refl), ((refl, refl, refl, refl), tt))),
  ),
)

All-inside :
    All
      (λ t. t < (current_throttle "ada@example.com" 1 []).window_started_at + login_window_ms)
      (times (wrong 1 ∷ wrongs))
unfolding current_throttle login_window_ms
All-inside = (omega arith, (omega arith, (omega arith, (omega arith, tt))))

last_inside : 5 < (current_throttle "ada@example.com" 1 []).window_started_at + login_window_ms
unfolding current_throttle login_window_ms
last_inside = omega arith

authenticate-Lockout_example :
    authenticate primitives
      (login_at "Correct-horse-1" 6)
      (authenticates primitives (wrong 1 ∷ wrongs ++ wrong 5 ∷ []) accounts)
    ≡ (blocked, authenticates primitives (wrong 1 ∷ wrongs ++ wrong 5 ∷ []) accounts)
unfolding login_window_ms
authenticate-Lockout_example =
    authenticate-Lockout primitives "ada@example.com" (wrong 1) (wrong 5)
      (login_at "Correct-horse-1" 6) wrongs accounts five_refused (omega arith) All-inside
      last_inside refl refl (omega arith)

abbrev logged_in_tables : AuthDb
logged_in_tables = (authenticate primitives (login_at "Correct-horse-1" 6) accounts).1

ada_logs_in :
    authenticate primitives (login_at "Correct-horse-1" 6) accounts
    ≡ (success "t1" "u1" admin, logged_in_tables)
unfolding session_ms is_blocked_at is_login_blocked current_throttle upsert_throttle record_outcomes
    record_login_outcome throttle_keys session_for with_outcome verify authenticate login_window_ms
    after_attempts same_text update_rows insert_by sort_by
ada_logs_in = refl

two_accounts :
    (email : String) (user : User)
    → find (has_email email) accounts.users ≡ some user
    → find (has_user_id user.id) accounts.users ≡ some user
two_accounts email user h =
    elim (if-some (has_email email ada) ada user (find (has_email email) (eve ∷ [])) h) [
      | inl (_, same) ↦
          subst (λ (u : User). find (has_user_id u.id) accounts.users ≡ some u) same refl
      | inr (_, rest) ↦ elim (if-some (has_email email eve) eve user none rest) [
        | inl (_, same) ↦
            subst (λ (u : User). find (has_user_id u.id) accounts.users ≡ some u) same refl
        | inr (_, never) ↦ cc
      ]
    ]

authenticate-current_user_example :
    StandsFor primitives (login_at "Correct-horse-1" 6) accounts 7 logged_in_tables "t1" "u1" admin
authenticate-current_user_example =
    authenticate-current_user primitives (login_at "Correct-horse-1" 6) accounts logged_in_tables 7
      ada_logs_in refl refl two_accounts

abbrev change : PasswordChange
change = record {
  user_id = "u1";
  current_password = text "Correct-horse-1";
  next_password = text "Correct-horse-2";
  next_hash = "Correct-horse-2";
}

abbrev changed_accounts : AuthDb
changed_accounts = record accounts {
  users = record ada { password_hash = "Correct-horse-2"; must_change_password = false } ∷ eve ∷ [];
}

ada_changes : change_password primitives change accounts ≡ ok changed_accounts
unfolding can_manage_users can_manage_wallet can_operate_bot can_modify_user
    temporary_password_access_error changed_password matches change_password allow_member
    refuse_temporary session_user current_user revoke_session require_user require_wallet_role
    password_policy_error same_text update_rows
ada_changes = refl

eve_stays : current_user primitives (some "eve") 8_000 changed_accounts ≡ some eve
unfolding current_user session_user
eve_stays = refl

change_password-ends_example : eve.id ≢ change.user_id
change_password-ends_example =
    change_password-ends primitives change accounts changed_accounts ada_changes (some "eve") 8_000
      eve eve_stays
