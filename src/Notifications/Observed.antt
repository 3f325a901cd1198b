-- ===== src/Notifications/Observed.antt =====
-- src/modules/notifications/operational-alerts.ts: the open alerts after one round of checks.
use braiker.Notifications.Alerts.{
  NotificationAlert, refreshed, open_or_refresh_alert, open_alerts, has_dedupe_key, AlertCandidate,
  new_alert, is_resolved, has_recovered, observe_status_failure_alerts, resolved_alert,
}
use braiker.Prelude.{
  List, [], ◌∷◌, Bool, true, ℕ, ◌≡◌, refl, arith, inl, inr, String, any, ◌&&◌, ◌++◌, Bool-cases,
  All, not, ◌||◌, str_eq_refl, and-true, or_true, false,
}
use braiker.Prelude.Table.{update_rows, All-weaken, All-made}

abbrev pub is_open_for : String → NotificationAlert → Bool
is_open_for key row = has_dedupe_key key row && not (is_resolved row.status)

-- An active alert, and the key of one.
abbrev pub IsOpen : List NotificationAlert → String × AlertCandidate → Type 0
IsOpen rows active = any (is_open_for active.1.dedupe_key) rows ≡ true

any-update_rows :
    (p picks : NotificationAlert → Bool) (change : NotificationAlert → NotificationAlert)
    (rows : List NotificationAlert)
    → ((row : NotificationAlert) → p row ≡ true → picks row ≡ true → p (change row) ≡ true)
    → any p rows ≡ true
    → any p (update_rows picks change rows) ≡ true
unfolding update_rows
any-update_rows p picks change [] keeps h = h
any-update_rows p picks change (row ∷ rows) keeps h =
    ground (arith, any-update_rows p picks change rows keeps, keeps row)

any-updated :
    (p picks : NotificationAlert → Bool) (change : NotificationAlert → NotificationAlert)
    (rows : List NotificationAlert)
    → ((row : NotificationAlert) → picks row ≡ true → p (change row) ≡ true)
    → any picks rows ≡ true
    → any p (update_rows picks change rows) ≡ true
unfolding update_rows
any-updated p picks change [] makes h = h
any-updated p picks change (row ∷ rows) makes h =
    ground (arith, any-updated p picks change rows makes, makes row)

any-append :
    (p : NotificationAlert → Bool) (rows : List NotificationAlert) (row : NotificationAlert)
    → any p (rows ++ row ∷ []) ≡ (any p rows || p row)
any-append p [] row = ground arith
any-append p (r ∷ rows) row = ground (arith, any-append p rows row)

refreshed-open :
    (key : String) (alert : AlertCandidate) (now : ℕ) (row : NotificationAlert)
    → has_dedupe_key key row ≡ true
    → is_open_for key (refreshed alert now row) ≡ true
unfolding refreshed
refreshed-open key alert now row h = rw h refl

open_or_refresh_alert-opens :
    (id : String) (alert : AlertCandidate) (now : ℕ) (rows : List NotificationAlert)
    → any (is_open_for alert.dedupe_key) (open_or_refresh_alert id alert now rows) ≡ true
unfolding open_or_refresh_alert new_alert
open_or_refresh_alert-opens id alert now rows =
    elim (Bool-cases (any (has_dedupe_key alert.dedupe_key) rows)) [
      | inl e ↦ rw e (
          any-updated (is_open_for alert.dedupe_key) (has_dedupe_key alert.dedupe_key)
            (refreshed alert now) rows (refreshed-open alert.dedupe_key alert now) e)
      | inr e ↦
          rw
            (
              e,
              any-append (is_open_for alert.dedupe_key) rows (new_alert id alert now),
              str_eq_refl alert.dedupe_key,
            )
            (or_true _)
    ]

open_or_refresh_alert-keeps :
    (key id : String) (alert : AlertCandidate) (now : ℕ) (rows : List NotificationAlert)
    → any (is_open_for key) rows ≡ true
    → any (is_open_for key) (open_or_refresh_alert id alert now rows) ≡ true
unfolding open_or_refresh_alert
open_or_refresh_alert-keeps key id alert now rows h =
    elim (Bool-cases (any (has_dedupe_key alert.dedupe_key) rows)) [
      | inl e ↦ rw e (
          any-update_rows (is_open_for key) (has_dedupe_key alert.dedupe_key) (refreshed alert now)
            rows
            (λ row mine _.
              refreshed-open key alert now row
                (and-true (has_dedupe_key key row) (not (is_resolved row.status)) mine).0)
            h)
      | inr e ↦ rw (e, any-append (is_open_for key) rows (new_alert id alert now), h) refl
    ]

open_alerts-keeps :
    (key : String) (active : List (String × AlertCandidate)) (now : ℕ)
    (rows : List NotificationAlert)
    → any (is_open_for key) rows ≡ true
    → any (is_open_for key) (open_alerts active now rows) ≡ true
unfolding open_alerts
open_alerts-keeps key [] now rows h = h
open_alerts-keeps key ((id, alert) ∷ active) now rows h =
    open_alerts-keeps key active now (open_or_refresh_alert id alert now rows)
      (open_or_refresh_alert-keeps key id alert now rows h)

open_alerts-IsOpen :
    (active : List (String × AlertCandidate)) (now : ℕ) (rows : List NotificationAlert)
    → All (IsOpen (open_alerts active now rows)) active
unfolding open_alerts
open_alerts-IsOpen [] now rows = tt
open_alerts-IsOpen ((id, alert) ∷ active) now rows = (
  open_alerts-keeps alert.dedupe_key active now (open_or_refresh_alert id alert now rows)
      (open_or_refresh_alert-opens id alert now rows),
  open_alerts-IsOpen active now (open_or_refresh_alert id alert now rows),
)

abbrev is_listed : List (String × AlertCandidate) → NotificationAlert → Bool
is_listed active row =
    any (λ (a : String × AlertCandidate). has_dedupe_key a.1.dedupe_key row) active

abbrev IsListed : List (String × AlertCandidate) → String × AlertCandidate → Type 0
IsListed active a =
    (row : NotificationAlert)
    → has_dedupe_key a.1.dedupe_key row ≡ true
    → is_listed active row ≡ true

All-IsListed : (active : List (String × AlertCandidate)) → All (IsListed active) active
All-IsListed [] = tt
All-IsListed (a ∷ active) = (
  (λ row h. rw h refl),
  All-weaken (IsListed active) (IsListed (a ∷ active)) active
      (λ b listed row h. rw (listed row h) (or_true _)) (All-IsListed active),
)

has_recovered-listed :
    (active : List (String × AlertCandidate)) (row : NotificationAlert)
    → is_listed active row ≡ true
    → has_recovered active row ≡ false
unfolding has_recovered
has_recovered-listed active row h = rw h (ground arith)

has_recovered-resolved :
    (active : List (String × AlertCandidate)) (now : ℕ) (row : NotificationAlert)
    → has_recovered active (resolved_alert now row) ≡ false
unfolding has_recovered resolved_alert
has_recovered-resolved active now row = ground arith

IsOpen-resolving :
    (active : List (String × AlertCandidate)) (now : ℕ) (rows : List NotificationAlert)
    (items : List (String × AlertCandidate))
    → All (IsListed active) items
    → All (IsOpen rows) items
    → All (IsOpen (update_rows (has_recovered active) (resolved_alert now) rows)) items
IsOpen-resolving active now rows [] listed h = tt
IsOpen-resolving active now rows (a ∷ items) listed h = (
  any-update_rows (is_open_for a.1.dedupe_key) (has_recovered active) (resolved_alert now) rows
      (λ row mine picked.
        let own =
          (and-true (has_dedupe_key a.1.dedupe_key row) (not (is_resolved row.status)) mine).0 in
        let stays = has_recovered-listed active row (listed.0 row own) in absurd (ground arith))
      h.0,
  IsOpen-resolving active now rows items listed.1 h.1,
)

-- After a round of checks every active alert has an open row under its key, and no open row of a
-- status failure has a key that is none of the active ones.
pub observe_status_failure_alerts-Agrees :
    (active : List (String × AlertCandidate)) (now : ℕ) (rows : List NotificationAlert)
    → All (IsOpen (observe_status_failure_alerts active now rows)) active
      × All
          (λ row. has_recovered active row ≡ false)
          (observe_status_failure_alerts active now rows)
unfolding observe_status_failure_alerts
observe_status_failure_alerts-Agrees active now rows = (
  IsOpen-resolving active now (open_alerts active now rows) active (All-IsListed active)
      (open_alerts-IsOpen active now rows),
  All-made (λ row. has_recovered active row ≡ false) (has_recovered active) (resolved_alert now)
      (open_alerts active now rows) (λ row _. has_recovered-resolved active now row) (λ row e. e),
)
