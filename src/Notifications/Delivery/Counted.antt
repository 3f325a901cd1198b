-- ===== src/Notifications/Delivery/Counted.antt =====
-- src/modules/notifications/notification-delivery.ts: the deliveries that runs count, and the rows that
-- say so.
use braiker.Notifications.Delivery.{Channel, webhook, email, telegram, same_channel, claim_channel}
use braiker.Notifications.Delivery.Runs.{Send, Dispatch}
use braiker.Prelude.{
  List, ◌∷◌, Bool, true, false, ℕ, suc, ◌≡◌, refl, inl, inr, String, str_eq, keep, length, ◌⊎◌, All,
  Bool-cases, ◌&&◌, ap, ◌∙◌,
}
use braiker.Notifications.Alerts.{NotificationAlert}
use braiker.Notifications.Delivery.Sent.{IsSent, claim_channel-IsSent, claim_channel-sent}

abbrev pub is_counted_for : String → Channel → Send → Bool
is_counted_for id channel send =
    str_eq send.alert_id id && same_channel send.channel channel && send.is_counted

unfoldable pub delivered_count : String → Channel → Dispatch → ℕ
delivered_count id channel run = length (keep (is_counted_for id channel) run.sends)

-- The sends of one alert over one channel: none is counted, or one is and its rows say so.
abbrev pub AtMostOnce : String → Channel → Dispatch → Type 0
AtMostOnce id channel run =
    (delivered_count id channel run ≡ 0)
    ⊎ (delivered_count id channel run ≡ 1) × All (IsSent id channel) run.rows

pub same_channel-eq : (a b : Channel) → same_channel a b ≡ true → a ≡ b
same_channel-eq webhook webhook h = refl
same_channel-eq email email h = refl
same_channel-eq telegram telegram h = refl
same_channel-eq webhook email h = cc
same_channel-eq webhook telegram h = cc
same_channel-eq email webhook h = cc
same_channel-eq email telegram h = cc
same_channel-eq telegram webhook h = cc
same_channel-eq telegram email h = cc

-- A delivery counts where it is of the alert and of the channel, and counted.
delivered_count-cons :
    (id : String) (channel : Channel) (sent : Send) (sends : List Send)
    → (is_counted_for id channel sent ≡ false)
        × (keep (is_counted_for id channel) (sent ∷ sends) ≡ keep (is_counted_for id channel) sends)
      ⊎ (is_counted_for id channel sent ≡ true)
        × (keep (is_counted_for id channel) (sent ∷ sends)
            ≡ sent ∷ keep (is_counted_for id channel) sends)
delivered_count-cons id channel sent sends = elim (Bool-cases (is_counted_for id channel sent)) [
  | inl e ↦ rw e (inr (refl, refl))
  | inr e ↦ rw e (inl (refl, refl))
]

pub claim_channel-AtMostOnce :
    (id other_id : String) (channel other : Channel) (now : ℕ) (run : Dispatch)
    → AtMostOnce id channel run
    → AtMostOnce id channel (record run { rows = (claim_channel other_id other now run.rows).1 })
unfolding delivered_count
claim_channel-AtMostOnce id other_id channel other now run (inl none_yet) = inl none_yet
claim_channel-AtMostOnce id other_id channel other now run (inr (one, all)) =
    inr (one, claim_channel-IsSent id other_id channel other now run.rows all)

pub delivered_count-claim :
    (id : String) (channel : Channel) (now : ℕ) (run : Dispatch)
    → (claim_channel id channel now run.rows).0 ≡ true
    → AtMostOnce id channel run
    → delivered_count id channel run ≡ 0
delivered_count-claim id channel now run e (inl none_yet) = none_yet
delivered_count-claim id channel now run e (inr (one, all)) =
    let sent = claim_channel-sent id channel now run.rows all in cc

-- A delivery that counts is the first, and its rows are written; any other leaves both.
pub AtMostOnce-send :
    (id : String) (channel : Channel) (rows rows' : List NotificationAlert) (sent : Send)
    (sends : List Send) (stopped : Bool)
    → (is_counted_for id channel sent ≡ true
        → (delivered_count id channel record { rows = rows; sends = sends; is_stopped = stopped }
            ≡ 0)
          × All (IsSent id channel) rows')
    → (All (IsSent id channel) rows → All (IsSent id channel) rows')
    → AtMostOnce id channel record { rows = rows; sends = sends; is_stopped = stopped }
    → AtMostOnce id channel record { rows = rows'; sends = sent ∷ sends; is_stopped = stopped }
unfolding delivered_count
AtMostOnce-send id channel rows rows' sent sends stopped first keeps h =
    elim (delivered_count-cons id channel sent sends) [
      | inl (e, same) ↦
          rw same (elim h [ inl none_yet ↦ inl none_yet | inr (one, all) ↦ inr (one, keeps all) ])
      | inr (e, more) ↦ let (none_yet, all) = first e in inr (ap length more ∙ ap suc none_yet, all)
    ]
