-- ===== src/Notifications/Delivery/Sent.antt =====
-- src/modules/notifications/notification-delivery.ts: the rows of an alert that a channel has delivered,
-- under the claim and under the result of a send.
use braiker.Notifications.Delivery.{
  Channel, webhook, email, telegram, state_of, with_state, delivered, with_result,
  record_delivery_result, claim_channel, delivery_due, can_claim, undelivered, attempted,
  has_alert_id, delivery_retry_ms,
}
use braiker.Prelude.{
  List, Option, none, some, true, false, ℕ, ◌≡◌, refl, inl, inr, String, Bool-cases, All, str_eq,
  Option-cases, ap,
}
use braiker.Notifications.Alerts.{NotificationAlert, ChannelState, is_resolved}
use braiker.Prelude.Maybe.{is_some}
use braiker.Prelude.Table.{All-update_rows, keep-none, All-made, All-weaken}

abbrev pub IsSent : String → Channel → NotificationAlert → Type 0
IsSent id channel row =
    has_alert_id id row ≡ true → is_some (state_of channel row).delivered_at ≡ true

with_state-IsSent :
    (id : String) (channel other : Channel) (state : ChannelState) (row : NotificationAlert)
    → (is_some (state_of other row).delivered_at ≡ true → is_some state.delivered_at ≡ true)
    → IsSent id channel row
    → IsSent id channel (with_state other state row)
unfolding state_of with_state
with_state-IsSent id webhook webhook state row keeps h = λ e. keeps (h e)
with_state-IsSent id webhook email state row keeps h = h
with_state-IsSent id webhook telegram state row keeps h = h
with_state-IsSent id email webhook state row keeps h = h
with_state-IsSent id email email state row keeps h = λ e. keeps (h e)
with_state-IsSent id email telegram state row keeps h = h
with_state-IsSent id telegram webhook state row keeps h = h
with_state-IsSent id telegram email state row keeps h = h
with_state-IsSent id telegram telegram state row keeps h = λ e. keeps (h e)

state_of-with_state :
    (channel : Channel) (state : ChannelState) (row : NotificationAlert)
    → state_of channel (with_state channel state row) ≡ state
unfolding state_of with_state
state_of-with_state webhook state row = refl
state_of-with_state email state row = refl
state_of-with_state telegram state row = refl

id-with_state :
    (channel : Channel) (state : ChannelState) (row : NotificationAlert)
    → (with_state channel state row).id ≡ row.id
unfolding with_state
id-with_state webhook state row = refl
id-with_state email state row = refl
id-with_state telegram state row = refl

delivered-IsSent :
    (id : String) (channel other : Channel) (now : ℕ) (row : NotificationAlert)
    → IsSent id channel row
    → IsSent id channel (delivered other now row)
unfolding delivered
delivered-IsSent id channel other now row h = with_state-IsSent id channel other _ row (λ e. refl) h

with_result-IsSent :
    (id : String) (channel other : Channel) (now : ℕ) (error : Option String)
    (row : NotificationAlert)
    → IsSent id channel row
    → IsSent id channel (with_result other now error row)
unfolding with_result undelivered
with_result-IsSent id channel other now none row h = delivered-IsSent id channel other now row h
with_result-IsSent id channel other now (some error) row h = elim (Bool-cases (str_eq error "")) [
  | inl e ↦ rw e (delivered-IsSent id channel other now row h)
  | inr e ↦ rw e (with_state-IsSent id channel other _ row (λ sent. sent) h)
]

pub record_delivery_result-IsSent :
    (id other_id : String) (channel other : Channel) (now : ℕ) (error : Option String)
    (rows : List NotificationAlert)
    → All (IsSent id channel) rows
    → All (IsSent id channel) (record_delivery_result other_id other now error rows)
unfolding record_delivery_result
record_delivery_result-IsSent id other_id channel other now error rows h =
    All-update_rows (IsSent id channel) (has_alert_id other_id) (with_result other now error) rows
      (λ row e. with_result-IsSent id channel other now error row) h

pub claim_channel-IsSent :
    (id other_id : String) (channel other : Channel) (now : ℕ) (rows : List NotificationAlert)
    → All (IsSent id channel) rows
    → All (IsSent id channel) (claim_channel other_id other now rows).1
unfolding claim_channel attempted
claim_channel-IsSent id other_id channel other now rows h =
    All-update_rows (IsSent id channel) (can_claim other_id other now) (attempted other now) rows
      (λ row e. with_state-IsSent id channel other _ row (λ sent. sent)) h

delivery_due-sent :
    (state : ChannelState) (now retry_after_ms : ℕ)
    → is_some state.delivered_at ≡ true
    → delivery_due state now retry_after_ms ≡ false
unfolding delivery_due
delivery_due-sent state now retry_after_ms h = elim (Option-cases state.delivered_at) [
  | inl e ↦ cc
  | inr (at, e) ↦ rw e refl
]

can_claim-sent :
    (id : String) (channel : Channel) (now : ℕ) (row : NotificationAlert)
    → IsSent id channel row
    → can_claim id channel now row ≡ false
unfolding can_claim
can_claim-sent id channel now row h = elim (Bool-cases (has_alert_id id row)) [
  | inl e ↦
      let due = delivery_due-sent (state_of channel row) now delivery_retry_ms (h e) in
      rw (e, due)
        (elim (Bool-cases (is_resolved row.status)) [ inl r ↦ rw r refl | inr r ↦ rw r refl ])
  | inr e ↦ rw e refl
]

-- The claim finds no row of a delivered alert.
pub claim_channel-sent :
    (id : String) (channel : Channel) (now : ℕ) (rows : List NotificationAlert)
    → All (IsSent id channel) rows
    → (claim_channel id channel now rows).0 ≡ false
unfolding claim_channel
claim_channel-sent id channel now rows h =
    rw
      (keep-none (can_claim id channel now) rows
        (All-weaken (IsSent id channel) _ rows (can_claim-sent id channel now) h))
      refl

-- The result of a delivery is written on every row of its alert.
pub delivered-made :
    (id : String) (channel : Channel) (now : ℕ) (rows : List NotificationAlert)
    → All (IsSent id channel) (record_delivery_result id channel now none rows)
unfolding record_delivery_result with_result delivered
delivered-made id channel now rows =
    All-made (IsSent id channel) (has_alert_id id) (with_result channel now none) rows
      (λ row e _.
        ap (λ (state : ChannelState). is_some state.delivered_at)
          (state_of-with_state channel _ row))
      (λ row e e'. cc)
