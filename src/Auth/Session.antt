-- ===== src/Auth/Session.antt =====
-- src/modules/auth/session.ts: accounts, sessions and the rows of the throttle. SHA-256, bcrypt and
-- the normalization of an address are parameters; the text that `randomBytes` or bcrypt's salt gives is
-- an argument of the call. A date is its milliseconds.
pub mod Password
pub mod Access
pub mod Throttle
pub mod Lockout
pub mod Cookie
use braiker.Prelude.Text.{Text}
use braiker.Prelude.{
  List, [], ◌∷◌, Option, none, some, Bool, true, false, ℕ, zero, suc, ◌≡◌, refl, arith, inl, inr,
  String, ◌*◌, str_eq, any, ◌+◌, if◌then◌else◌, ◌&&◌, ◌++◌, map, find, ltb,
}
use braiker.Domain.{UserRole}
use braiker.Auth.LoginThrottle.{LoginThrottleState, next_login_throttle}
use braiker.Prelude.Sort.{sort_by}
use braiker.Prelude.Table.{update_rows}

pub record User : Type 0 where
  pub id : String
  pub email : String
  pub password_hash : String
  pub role : UserRole
  pub must_change_password : Bool

pub record Session : Type 0 where
  pub user_id : String
  pub token_hash : String
  pub expires_at : ℕ

pub record LoginThrottle : Type 0 where
  pub key_hash : String
  pub state : LoginThrottleState

pub record WalletMember : Type 0 where
  pub wallet_id : String
  pub user_id : String
  pub role : UserRole

pub record AuthDb : Type 0 where
  pub users : List User
  pub sessions : List Session
  pub throttles : List LoginThrottle
  pub members : List WalletMember

unfoldable pub session_ms : ℕ
session_ms = 7 * 86_400_000

abbrev pub login_identity_limit : ℕ
login_identity_limit = 5

abbrev pub login_ip_limit : ℕ
login_ip_limit = 20

-- One key of the throttle, with its limit.
pub record ThrottleKey : Type 0 where
  pub key : String
  pub limit : ℕ

abbrev pub has_key : String → LoginThrottle → Bool
has_key key row = str_eq row.key_hash key

abbrev pub is_after : ℕ → Option ℕ → Bool
is_after now none = false
is_after now (some at) = ltb now at

-- `blockedUntil: { gt: now }`
unfoldable pub is_blocked_at : ℕ → LoginThrottleState → Bool
is_blocked_at now state = is_after now state.blocked_until

unfoldable pub is_login_blocked : List String → ℕ → List LoginThrottle → Bool
is_login_blocked keys now throttles =
    any (λ (row : LoginThrottle). any (λ key. has_key key row) keys && is_blocked_at now row.state)
      throttles

abbrev pub state_or_new : ℕ → Option LoginThrottle → LoginThrottleState
state_or_new now (some row) = row.state
state_or_new now none = record { failures = 0; window_started_at = now; blocked_until = none }

unfoldable pub current_throttle : String → ℕ → List LoginThrottle → LoginThrottleState
current_throttle key now throttles = state_or_new now (find (has_key key) throttles)

unfoldable pub upsert_throttle :
    String → LoginThrottleState → List LoginThrottle → List LoginThrottle
upsert_throttle key state throttles =
    if any (has_key key) throttles
    then update_rows (has_key key) (λ (row : LoginThrottle). record row { state = state }) throttles
    else throttles ++ record { key_hash = key; state = state } ∷ []

unfoldable pub record_outcomes :
    List ThrottleKey → Bool → ℕ → List LoginThrottle → List LoginThrottle
record_outcomes [] succeeded now throttles = throttles
record_outcomes (item ∷ items) succeeded now throttles = record_outcomes items succeeded now (
    upsert_throttle item.key
      (next_login_throttle (current_throttle item.key now throttles) succeeded now item.limit)
      throttles)

pub data Authentication : Type 0 where
  success : String → String → UserRole → Authentication
  blocked refused : Authentication

-- A login, with the times of its two clock reads and the token that `randomBytes` gives it.
pub record Login : Type 0 where
  pub email : String
  pub password : Text
  pub client_ip : String
  pub throttle : Bool
  pub token : String
  pub now : ℕ
  pub created_at : ℕ

abbrev pub has_user_id : String → User → Bool
has_user_id id user = str_eq user.id id

abbrev pub has_email : String → User → Bool
has_email email user = str_eq user.email email

abbrev pub is_session_of : String → Session → Bool
is_session_of user_id session = str_eq session.user_id user_id

abbrev pub has_token_hash : String → Session → Bool
has_token_hash token_hash session = str_eq session.token_hash token_hash

-- `localeCompare`; SHA-256 of a session's token, of an address and of a client's address;
-- `trim().toLowerCase()`; `bcrypt.compare`.
pub record Primitives : Type 0 where
  pub key_le : String → String → Bool
  pub token_hash : String → String
  pub email_key : String → String
  pub ip_key : String → String
  pub normalized : String → String
  pub compare : Text → String → Bool

module _ (p : Primitives) where
  unfoldable pub record_login_outcome :
      List ThrottleKey → Bool → ℕ → List LoginThrottle → List LoginThrottle
  record_login_outcome keys succeeded now throttles =
      record_outcomes (sort_by (λ (a b : ThrottleKey). p.key_le a.key b.key) keys) succeeded now
        throttles

  unfoldable pub throttle_keys : Login → List ThrottleKey
  throttle_keys login =
      record { key = p.email_key (p.normalized login.email); limit = login_identity_limit }
      ∷ record { key = p.ip_key login.client_ip; limit = login_ip_limit }
      ∷ []

  unfoldable pub session_for : Login → User → Session
  session_for login user = record {
    user_id = user.id;
    token_hash = p.token_hash login.token;
    expires_at = login.created_at + session_ms;
  }

  unfoldable pub with_outcome : Login → Bool → AuthDb → AuthDb
  with_outcome login succeeded db =
      if login.throttle
      then record db {
        throttles = record_login_outcome (throttle_keys login) succeeded login.now db.throttles;
      }
      else db

  unfoldable pub verify : Login → Option User → AuthDb → Authentication × AuthDb
  verify login none db = (refused, with_outcome login false db)
  verify login (some user) db =
      let succeeded = p.compare login.password user.password_hash in
      let recorded = with_outcome login succeeded db in
      if succeeded
      then (
        success login.token user.id user.role,
        record recorded { sessions = recorded.sessions ++ session_for login user ∷ [] },
      )
      else (refused, recorded)

  unfoldable pub authenticate : Login → AuthDb → Authentication × AuthDb
  authenticate login db =
      if login.throttle
        && is_login_blocked (map (λ (item : ThrottleKey). item.key) (throttle_keys login)) login.now
            db.throttles
      then (blocked, db)
      else verify login (find (has_email (p.normalized login.email)) db.users) db
