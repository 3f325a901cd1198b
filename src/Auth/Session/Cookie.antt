-- ===== src/Auth/Session/Cookie.antt =====
-- src/modules/auth/session.ts: whom a cookie stands for after a login and after a change of the
-- password.
use braiker.Prelude.Result.{ok, throw_if->>, ok-injective, >>-eq-ok}
use braiker.Auth.Session.{
  success, blocked, refused, authenticate, Login, AuthDb, User, has_email, with_outcome,
  session_for, Primitives, verify, has_token_hash, has_user_id, is_login_blocked, ThrottleKey,
  throttle_keys, session_ms, Session, is_session_of, Authentication,
}
use braiker.Auth.Session.Access.{
  current_user, session_user, change_password, PasswordChange, throw_error, matches,
}
use braiker.Prelude.{
  List, [], ◌∷◌, Option, none, some, Bool, true, false, ℕ, ◌≡◌, refl, arith, inl, inr, any, find,
  String, Bool-cases, keep, ◌⊎◌, ◌++◌, str_eq, ◌≢◌, ◌&&◌, if◌then◌else◌, ltb, map, ◌+◌, str_eq_refl,
  sym, subst, ◌∙◌, not, ap, eq_iff, subst₂,
}
use braiker.Domain.{UserRole}
use braiker.Auth.Session.Password.{password_policy_error}

find-append-none {ℓ} :
    {A : Type ℓ} (picks : A → Bool) (xs : List A) (x : A)
    → any picks xs ≡ false
    → picks x ≡ true
    → find picks (xs ++ x ∷ []) ≡ some x
find-append-none picks [] x h e = rw e refl
find-append-none picks (y ∷ xs) x h e = ground (arith, find-append-none picks xs x)

-- What is found was picked, and `keep` leaves only what it picks.
find-picks {ℓ} :
    {A : Type ℓ} (picks : A → Bool) (xs : List A) {x : A} → find picks xs ≡ some x → picks x ≡ true
find-picks picks [] h = cc
find-picks picks (y ∷ xs) h = elim (Bool-cases (picks y)) [
  | inl e ↦ ground arith
  | inr e ↦ find-picks picks xs (ground arith)
]

find-keep {ℓ} :
    {A : Type ℓ} (picks keeps : A → Bool) (xs : List A) {x : A}
    → find picks (keep keeps xs) ≡ some x
    → keeps x ≡ true
find-keep picks keeps [] h = cc
find-keep picks keeps (y ∷ xs) h = elim (Bool-cases (keeps y)) [
  | inl e ↦ elim (Bool-cases (picks y)) [
    | inl e' ↦ ground arith
    | inr e' ↦ find-keep picks keeps xs (ground arith)
  ]
  | inr e ↦ find-keep picks keeps xs (ground arith)
]

session_user-some :
    (found : Option Session) (now : ℕ) (db : AuthDb) {user : User}
    → session_user found now db ≡ some user
    → (session : Session) × (found ≡ some session) × (user.id ≡ session.user_id)
unfolding session_user
session_user-some none now db h = cc
session_user-some (some session) now db {user} h = elim (Bool-cases (ltb session.expires_at now)) [
  | inl e ↦ absurd (ground arith)
  | inr e ↦
      let found = find-picks (has_user_id session.user_id) db.users {x = user} (ground arith) in
      (session, refl, (eq_iff user.id session.user_id).0 found)
]

module _ {token token' id id' : String} {role role' : UserRole}
    (same : success token id role ≡ success token' id' role') where
  success-token : token ≡ token'
  success-token = cc

  success-id : id' ≡ id
  success-id = cc

  success-role : role' ≡ role
  success-role = cc

module _ (p : Primitives) where
  -- The tables after a login, with the throttle's rows as its outcome left them.
  abbrev pub logged_in : Login → User → AuthDb → AuthDb
  logged_in login user db =
      let recorded = with_outcome p login true db in
      record recorded { sessions = recorded.sessions ++ session_for p login user ∷ [] }

  sessions-with_outcome :
      (login : Login) (succeeded : Bool) (db : AuthDb)
      → ((with_outcome p login succeeded db).sessions ≡ db.sessions)
        × ((with_outcome p login succeeded db).users ≡ db.users)
  unfolding with_outcome
  sessions-with_outcome login succeeded db = elim (Bool-cases login.throttle) [
    | inl e ↦ rw e (refl, refl)
    | inr e ↦ rw e (refl, refl)
  ]

  verify-cases :
      (login : Login) (found : Option User) (db : AuthDb)
      → (verify p login found db ≡ (refused, with_outcome p login false db))
        ⊎ (user : User) × (found ≡ some user)
          × (p.compare login.password user.password_hash ≡ true)
          × (verify p login found db
              ≡ (success login.token user.id user.role, logged_in login user db))
  unfolding verify
  verify-cases login none db = inl refl
  verify-cases login (some user) db =
      elim (Bool-cases (p.compare login.password user.password_hash)) [
        | inl e ↦ inr (user, refl, e, rw e refl)
        | inr e ↦ rw e (inl refl)
      ]

  -- The three ends of a login.
  pub authenticate-cases :
      (login : Login) (db : AuthDb)
      → (authenticate p login db ≡ (blocked, db))
        ⊎ (authenticate p login db ≡ (refused, with_outcome p login false db))
        ⊎ (user : User) × (find (has_email (p.normalized login.email)) db.users ≡ some user)
          × (p.compare login.password user.password_hash ≡ true)
          × (authenticate p login db
              ≡ (success login.token user.id user.role, logged_in login user db))
  unfolding authenticate
  authenticate-cases login db =
      let found = find (has_email (p.normalized login.email)) db.users in
      elim (Bool-cases (
        login.throttle
        && is_login_blocked (map (λ (item : ThrottleKey). item.key) (throttle_keys p login))
            login.now db.throttles)) [
              | inl e ↦ inl (rw e refl)
              | inr e ↦ rw e (inr (verify-cases login found db))
            ]

  current_user-logged_in :
      (login : Login) (user : User) (db : AuthDb) (now : ℕ)
      → str_eq login.token "" ≡ false
      → any (has_token_hash (p.token_hash login.token)) db.sessions ≡ false
      → find (has_user_id user.id) db.users ≡ some user
      → current_user p (some login.token) now (logged_in login user db)
        ≡ (if ltb (login.created_at + session_ms) now then none else some user)
  unfolding current_user session_user session_for
  current_user-logged_in login user db now token fresh own =
      let (same, users) = sessions-with_outcome login true db in
      let row =
        find-append-none (has_token_hash (p.token_hash login.token)) db.sessions
          (session_for p login user) fresh (str_eq_refl _) in
      rw (token, same, row, users, own) refl

  -- What a login gave, and whom its token stands for at a time.
  abbrev pub StandsFor : Login → AuthDb → ℕ → AuthDb → String → String → UserRole → Type 0
  StandsFor login db now db' token user_id role =
      (user : User) × (find (has_email (p.normalized login.email)) db.users ≡ some user)
      × (p.compare login.password user.password_hash ≡ true)
      × (user_id ≡ user.id)
      × (role ≡ user.role)
      × (current_user p (some token) now db'
          ≡ (if ltb (login.created_at + session_ms) now then none else some user))

  -- Where the token is not empty, no session has its hash, and a user found by an address is found
  -- by its id, a login that succeeds is of a stored user for the normalized address whose hash
  -- matches the password, gives that user's id and role, and its token stands for that user at
  -- every time up to seven days after the session's creation and for nobody later.
  pub authenticate-current_user :
      (login : Login) (db db' : AuthDb) (now : ℕ) {token user_id : String} {role : UserRole}
      → authenticate p login db ≡ (success token user_id role, db')
      → str_eq login.token "" ≡ false
      → any (has_token_hash (p.token_hash login.token)) db.sessions ≡ false
      → ((email : String) (user : User)
          → find (has_email email) db.users ≡ some user
          → find (has_user_id user.id) db.users ≡ some user)
      → StandsFor login db now db' token user_id role
  authenticate-current_user login db db' now h token fresh unique =
      elim (authenticate-cases login db) [
        | inl e ↦
            absurd
              (let made = ap (λ (r : Authentication × AuthDb). r.0) (sym e ∙ h) in ground arith)
        | inr (inl e) ↦
            absurd
              (let made = ap (λ (r : Authentication × AuthDb). r.0) (sym e ∙ h) in ground arith)
        | inr (inr (user, found, matched, made)) ↦
            let same = sym made ∙ h in
            let first = ap (λ (r : Authentication × AuthDb). r.0) same in
            let after = ap (λ (r : Authentication × AuthDb). r.1) same in
            (
              user,
              found,
              matched,
              success-id first,
              success-role first,
              subst₂
                  (λ t (d : AuthDb).
                    current_user p (some t) now d
                    ≡ (if ltb (login.created_at + session_ms) now then none else some user))
                  (success-token first) after
                  (current_user-logged_in login user db now token fresh
                    (unique (p.normalized login.email) user found)),
            )
      ]

  change_password-made :
      (change : PasswordChange) (db db' : AuthDb)
      → change_password p change db ≡ ok db'
      → db'.sessions ≡ keep (λ (s : Session). not (is_session_of change.user_id s)) db.sessions
  unfolding change_password
  change_password-made change db db' h =
      let (_, rest) = >>-eq-ok (throw_error (password_policy_error change.next_password)) _ h in
      let (_, made) =
        throw_if->>
          (not (matches p change.current_password (find (has_user_id change.user_id) db.users)))
          "INVALID_CURRENT_PASSWORD" _ rest in
      ap (λ (d : AuthDb). d.sessions) (sym (ok-injective made))

  -- Who a cookie stands for is the user of its session.
  current_user-session :
      (token : Option String) (now : ℕ) (db : AuthDb) (user : User)
      → current_user p token now db ≡ some user
      → (hash : String) × (session : Session) × (find (has_token_hash hash) db.sessions
          ≡ some session)
        × (user.id ≡ session.user_id)
  unfolding current_user session_user
  current_user-session none now db user h = cc
  current_user-session (some token) now db user h = elim (Bool-cases (str_eq token "")) [
    | inl e ↦ absurd (ground arith)
    | inr e ↦
        let (session, row, same) =
          session_user-some (find (has_token_hash (p.token_hash token)) db.sessions) now db
            {user = user} (ground arith) in
        (p.token_hash token, session, row, same)
  ]

  -- After a change of a password that returns, no cookie stands for its user, at any time.
  pub change_password-ends :
      (change : PasswordChange) (db db' : AuthDb)
      → change_password p change db ≡ ok db'
      → (token : Option String) (now : ℕ) (user : User) → current_user p token now db' ≡ some user
      → user.id ≢ change.user_id
  change_password-ends change db db' h token now user found =
      let (hash, session, row, same) = current_user-session token now db' user found in
      let kept =
        subst (λ rows. find (has_token_hash hash) rows ≡ some session)
          (change_password-made change db db' h) row in
      let other =
        find-keep (has_token_hash hash) (λ (s : Session). not (is_session_of change.user_id s))
          db.sessions kept in
      λ mine.
        let mine_too = (eq_iff session.user_id change.user_id).1 (sym same ∙ mine) in ground arith
