-- ===== src/Auth/Session/Access.antt =====
-- src/modules/auth/session.ts, authorization.ts and session-policy.ts: a change of the password, the
-- cookie's user and the roles that may act.
use braiker.Prelude.Result.{Result, ok, throw, throw_if, or_throw, ◌>>=◌, ◌>>◌}
use braiker.Prelude.Text.{Text}
use braiker.Prelude.Table.{update_rows}
use braiker.Auth.Session.Password.{password_policy_error}
use braiker.Domain.{UserRole, admin, operator, viewer}
use braiker.Prelude.{
  List, Option, none, some, Bool, true, false, ℕ, String, not, str_eq, find, any, keep,
  if◌then◌else◌, ◌&&◌, ltb,
}
use braiker.Auth.Session.{
  User, AuthDb, Session, WalletMember, has_user_id, is_session_of, has_token_hash, Primitives,
}

abbrev pub is_admin : UserRole → Bool
is_admin admin = true
is_admin operator = false
is_admin viewer = false

unfoldable pub can_manage_users : UserRole → Bool
can_manage_users role = is_admin role

unfoldable pub can_manage_wallet : UserRole → Bool
can_manage_wallet role = is_admin role

unfoldable pub can_operate_bot : UserRole → Bool
can_operate_bot admin = true
can_operate_bot operator = true
can_operate_bot viewer = false

unfoldable pub can_modify_user : String → String → Bool
can_modify_user actor_id target_user_id = not (str_eq actor_id target_user_id)

unfoldable pub temporary_password_access_error : User → Option String
temporary_password_access_error user =
    if user.must_change_password then some "PASSWORD_CHANGE_REQUIRED" else none

-- `if (error) throw new Error(error)`
abbrev pub throw_error : Option String → Result (Unit {0})
throw_error none = ok tt
throw_error (some error) = throw error

pub record PasswordChange : Type 0 where
  pub user_id : String
  pub current_password : Text
  pub next_password : Text
  pub next_hash : String

unfoldable pub changed_password : PasswordChange → User → User
changed_password change user = record user {
  password_hash = change.next_hash;
  must_change_password = false;
}

module _ (p : Primitives) where
  unfoldable pub matches : Text → Option User → Bool
  matches password none = false
  matches password (some user) = p.compare password user.password_hash

  unfoldable pub change_password : PasswordChange → AuthDb → Result AuthDb
  change_password change db =
      throw_error (password_policy_error change.next_password)
      >> (throw_if
            (not (matches change.current_password (find (has_user_id change.user_id) db.users)))
            "INVALID_CURRENT_PASSWORD"
          >> ok (record db {
            users = update_rows (has_user_id change.user_id) (changed_password change) db.users;
            sessions = keep (λ (s : Session). not (is_session_of change.user_id s)) db.sessions;
          }))

abbrev pub is_member : String → String → WalletMember → Bool
is_member wallet_id user_id member =
    str_eq member.wallet_id wallet_id && str_eq member.user_id user_id

abbrev pub same_role : UserRole → UserRole → Bool
same_role admin admin = true
same_role operator operator = true
same_role viewer viewer = true
same_role _ _ = false

abbrev pub is_allowed : List UserRole → Option WalletMember → Bool
is_allowed allowed none = false
is_allowed allowed (some member) = any (same_role member.role) allowed

unfoldable pub allow_member : String → List UserRole → List WalletMember → User → Result User
allow_member wallet_id allowed members user =
    if is_admin user.role
    then ok user
    else throw_if (not (is_allowed allowed (find (is_member wallet_id user.id) members)))
        "FORBIDDEN"
      >> ok user

unfoldable pub refuse_temporary : Bool → User → Result (Unit {0})
refuse_temporary true user = ok tt
refuse_temporary false user = throw_error (temporary_password_access_error user)

-- A session's user is the row that its foreign key names.
unfoldable pub session_user : Option Session → ℕ → AuthDb → Option User
session_user none now db = none
session_user (some session) now db =
    if ltb session.expires_at now then none else find (has_user_id session.user_id) db.users

module _ (p : Primitives) where
  -- The cookie's token, if the request has one.
  unfoldable pub current_user : Option String → ℕ → AuthDb → Option User
  current_user none now db = none
  current_user (some token) now db =
      if str_eq token ""
      then none
      else session_user (find (has_token_hash (p.token_hash token)) db.sessions) now db

  unfoldable pub revoke_session : Option String → AuthDb → AuthDb
  revoke_session none db = db
  revoke_session (some token) db = if str_eq token "" then db else record db {
    sessions = keep (λ (s : Session). not (has_token_hash (p.token_hash token) s)) db.sessions;
  }

  unfoldable pub require_user : Bool → Option String → ℕ → AuthDb → Result User
  require_user allow_temporary_password token now db = do
    user ← or_throw (current_user token now db) "UNAUTHENTICATED"
    refuse_temporary allow_temporary_password user >> ok user

  unfoldable pub require_wallet_role :
      String → List UserRole → Option String → ℕ → AuthDb → Result User
  require_wallet_role wallet_id allowed token now db = do
    user ← require_user false token now db
    allow_member wallet_id allowed db.members user
