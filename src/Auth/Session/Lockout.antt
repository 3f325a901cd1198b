-- ===== src/Auth/Session/Lockout.antt =====
-- Refused logins of src/modules/auth/session.ts through the throttle's rows.
use braiker.Auth.Session.{
  blocked, refused, Primitives, current_throttle, Login, with_outcome, throttle_keys, authenticate,
  AuthDb, record_login_outcome, login_identity_limit, Authentication, is_login_blocked,
}
use braiker.Auth.LoginThrottle.Blocking.{failed_at, after_attempts-blocked_until}
use braiker.Prelude.{
  List, [], ◌∷◌, some, Bool, true, false, ℕ, ◌≡◌, refl, arith, inl, inr, String, map, str_eq, ◌<◌,
  ◌∙◌, ap, ◌++◌, subst, ◌≤◌, sym, length, All, ◌+◌, map-append, length-map,
}
use braiker.Auth.LoginThrottle.{
  next_login_throttle, after_attempts, LoginThrottleState, login_window_ms,
}
use braiker.Auth.Session.Throttle.{record_login_outcome-first, is_login_blocked-key}
use braiker.Auth.Session.Cookie.{authenticate-cases}

abbrev pub authenticates : Primitives → List Login → AuthDb → AuthDb
authenticates p [] db = db
authenticates p (login ∷ logins) db = authenticates p logins (authenticate p login db).1

-- A throttled login for the address, from a client whose key is not the address's, that is refused.
abbrev pub IsRefused : Primitives → String → Login → AuthDb → Type 0
IsRefused p email login db =
    (login.throttle ≡ true)
    × (p.normalized login.email ≡ email)
    × (str_eq (p.ip_key login.client_ip) (p.email_key email) ≡ false)
    × ((authenticate p login db).0 ≡ refused)

abbrev pub AreRefused : Primitives → String → List Login → AuthDb → Type 0
AreRefused p email [] db = Unit
AreRefused p email (login ∷ logins) db =
    IsRefused p email login db × AreRefused p email logins (authenticate p login db).1

abbrev pub times : List Login → List ℕ
times logins = map (λ (login : Login). login.now) logins

throttles-with_outcome :
    (p : Primitives) (login : Login) (succeeded : Bool) (db : AuthDb)
    → login.throttle ≡ true
    → (with_outcome p login succeeded db).throttles
      ≡ record_login_outcome p (throttle_keys p login) succeeded login.now db.throttles
unfolding with_outcome
throttles-with_outcome p login succeeded db h = rw h refl

throttle_keys-first :
    (p : Primitives) (login : Login) (db : AuthDb) (later : ℕ)
    → str_eq (p.ip_key login.client_ip) (p.email_key (p.normalized login.email)) ≡ false
    → current_throttle
        (p.email_key (p.normalized login.email))
        later
        (record_login_outcome p (throttle_keys p login) false login.now db.throttles)
      ≡ next_login_throttle
          (current_throttle (p.email_key (p.normalized login.email)) login.now db.throttles)
          false
          login.now
          login_identity_limit
unfolding throttle_keys
throttle_keys-first p login db later ne =
    record_login_outcome-first p _ _ false login.now later db.throttles ne

current_throttle-refused :
    (p : Primitives) (email : String) (login : Login) (db : AuthDb) (later : ℕ)
    → IsRefused p email login db
    → current_throttle (p.email_key email) later (authenticate p login db).1.throttles
      ≡ next_login_throttle
          (current_throttle (p.email_key email) login.now db.throttles)
          false
          login.now
          login_identity_limit
current_throttle-refused p email login db later (throttled, same, other, ended) =
    elim (authenticate-cases p login db) [
      | inl e ↦
          absurd
            (let wrong = ap (λ (r : Authentication × AuthDb). r.0) (sym e) ∙ ended in ground arith)
      | inr (inl e) ↦
          rw (e, throttles-with_outcome p login false db throttled)
            (subst
              (λ address.
                current_throttle (p.email_key address) later
                  (record_login_outcome p (throttle_keys p login) false login.now db.throttles)
                ≡ next_login_throttle
                    (current_throttle (p.email_key address) login.now db.throttles) false login.now
                    login_identity_limit)
              same
              (throttle_keys-first p login db later (
                subst (λ address. str_eq (p.ip_key login.client_ip) (p.email_key address) ≡ false)
                  (sym same) other)))
      | inr (inr (user, found, matched, e)) ↦
          absurd
            (let wrong = ap (λ (r : Authentication × AuthDb). r.0) (sym e) ∙ ended in ground arith)
    ]

current_throttle-authenticates :
    (p : Primitives) (email : String) (logins : List Login) (db : AuthDb)
    (state : LoginThrottleState)
    → AreRefused p email logins db
    → ((later : ℕ) → current_throttle (p.email_key email) later db.throttles ≡ state)
    → (later : ℕ)
    → current_throttle (p.email_key email) later (authenticates p logins db).throttles
      ≡ after_attempts login_identity_limit state (failed_at (times logins))
unfolding after_attempts
current_throttle-authenticates p email [] db state h e later = e later
current_throttle-authenticates p email (login ∷ logins) db state h e later =
    current_throttle-authenticates p email logins (authenticate p login db).1 _ h.1
      (λ later'.
        current_throttle-refused p email login db later' h.0
        ∙ ap (λ s. next_login_throttle s false login.now login_identity_limit) (e login.now))
      later

authenticate-blocked :
    (p : Primitives) (email : String) (login : Login) (db : AuthDb) {at : ℕ}
    → login.throttle ≡ true
    → p.normalized login.email ≡ email
    → (current_throttle (p.email_key email) login.now db.throttles).blocked_until ≡ some at
    → login.now < at
    → authenticate p login db ≡ (blocked, db)
unfolding authenticate throttle_keys
authenticate-blocked p email login db throttled same until early =
    let stands =
      is_login_blocked-key (p.email_key email) (p.ip_key login.client_ip ∷ []) login.now
        db.throttles until early in
    let blocks =
      subst
        (λ address.
          is_login_blocked (p.email_key address ∷ p.ip_key login.client_ip ∷ []) login.now
            db.throttles
          ≡ true)
        (sym same) stands in
    rw (throttled, blocks) refl

until_blocked :
    (state : LoginThrottleState) (before : List ℕ) (last : ℕ)
    → 4 ≤ length before
    → All (λ t. t < state.window_started_at + login_window_ms) before
    → last < state.window_started_at + login_window_ms
    → (after_attempts login_identity_limit state (failed_at (before ++ last ∷ []))).blocked_until
      ≡ some (last + login_window_ms)
until_blocked state before last enough inside inside' =
    after_attempts-blocked_until login_identity_limit state before last inside inside'
    ∙ ground arith

state-authenticates :
    (p : Primitives) (email : String) (first last : Login) (logins : List Login) (db : AuthDb)
    (later : ℕ)
    → AreRefused p email (first ∷ logins ++ last ∷ []) db
    → current_throttle
        (p.email_key email)
        later
        (authenticates p (first ∷ logins ++ last ∷ []) db).throttles
      ≡ after_attempts login_identity_limit
          (current_throttle (p.email_key email) first.now db.throttles)
          (failed_at ((first.now ∷ times logins) ++ last.now ∷ []))
unfolding after_attempts
state-authenticates p email first last logins db later h =
    current_throttle-authenticates p email (logins ++ last ∷ []) (authenticate p first db).1 _ h.1
      (λ later'. current_throttle-refused p email first db later' h.0) later
    ∙ ap
        (λ ts.
          after_attempts login_identity_limit
            (next_login_throttle (current_throttle (p.email_key email) first.now db.throttles) false
              first.now login_identity_limit)
            (failed_at ts))
        (map-append (λ (login : Login). login.now) logins (last ∷ []))

-- After at least five refused logins for an address, the first to the last within the window in
-- which its row stands at the first, each throttled and from clients whose key is not the
-- address's, every throttled login for the address less than a window after the last of them is
-- blocked, whatever its password and client, and changes no table.
pub authenticate-Lockout :
    (p : Primitives) (email : String) (first last next : Login) (logins : List Login) (db : AuthDb)
    → AreRefused p email (first ∷ logins ++ last ∷ []) db
    → 3 ≤ length logins
    → All
        (λ t.
          t
          < (current_throttle (p.email_key email) first.now db.throttles).window_started_at
            + login_window_ms)
        (times (first ∷ logins))
    → last.now
      < (current_throttle (p.email_key email) first.now db.throttles).window_started_at
        + login_window_ms
    → next.throttle ≡ true
    → p.normalized next.email ≡ email
    → next.now < last.now + login_window_ms
    → authenticate p next (authenticates p (first ∷ logins ++ last ∷ []) db)
      ≡ (blocked, authenticates p (first ∷ logins ++ last ∷ []) db)
authenticate-Lockout p email first last next logins db h enough inside inside' throttled same
      early =
    let state = current_throttle (p.email_key email) first.now db.throttles in
    let until =
      until_blocked state (times (first ∷ logins)) last.now
        (omega (arith, length-map (λ (login : Login). login.now) logins)) inside inside' in
    authenticate-blocked p email next (authenticates p (first ∷ logins ++ last ∷ []) db) throttled
      same
      (ap (λ (s : LoginThrottleState). s.blocked_until)
          (state-authenticates p email first last logins db next.now h)
        ∙ until)
      early
