-- ===== src/Notifications/Delivery/AtMostOnce.antt =====
-- src/modules/notifications/notification-delivery.ts: what the claim makes of runs that follow one
-- another, each with its own time, settings and senders.
use braiker.Prelude.Result.{Result, ok, throw, ◌>>◌}
use braiker.Notifications.Delivery.{
  Channel, PlannedDelivery, DeliverySettings, claim_channel, plan_notification_deliveries,
  delivery_retry_ms, same_channel, record_delivery_result,
}
use braiker.Notifications.Delivery.Runs.{
  Round, Dispatch, fail_delivery, settle_delivery, try_delivery, deliver, deliver_all,
  deliver_alerts, dispatch_with, dispatch_pending_notification_alerts, pending_alerts,
}
use braiker.Notifications.Alerts.{NotificationAlert}
use braiker.Prelude.{
  List, [], ◌∷◌, Option, none, some, Bool, true, false, ◌≡◌, refl, arith, inl, inr, String,
  Bool-cases, ◌≤◌, and-true, str_eq, subst₂, ◌&&◌, if◌then◌else◌, eq_iff, All, sym,
}
use braiker.Notifications.Delivery.Counted.{
  delivered_count, AtMostOnce, AtMostOnce-send, claim_channel-AtMostOnce, delivered_count-claim,
  same_channel-eq,
}
use braiker.Notifications.Delivery.Sent.{record_delivery_result-IsSent, IsSent, delivered-made}

unfoldable pub dispatch_rounds : List Round → Dispatch → Dispatch
dispatch_rounds [] run = run
dispatch_rounds (round ∷ rounds) run =
    dispatch_rounds rounds (dispatch_pending_notification_alerts round run)

fail_delivery-AtMostOnce :
    (round : Round) (id : String) (channel : Channel) (alert : NotificationAlert) (other : Channel)
    (message : String) (run : Dispatch)
    → AtMostOnce id channel run
    → AtMostOnce id channel (fail_delivery round alert other message run)
unfolding fail_delivery delivered_count
fail_delivery-AtMostOnce round id channel alert other message run h =
    elim (Bool-cases (round.stores_failure alert other)) [
      | inl e ↦ rw e (
          AtMostOnce-send id channel run.rows _
            (record { alert_id = alert.id; channel = other; is_counted = false }) run.sends
            run.is_stopped
            (λ counted.
              let (_, never) =
                and-true (str_eq alert.id id && same_channel other channel) false counted in
              absurd (ground arith))
            (record_delivery_result-IsSent id alert.id channel other round.now
              (some (round.sanitize message)) run.rows)
            h)
      | inr e ↦ rw e h
    ]

settle_delivery-AtMostOnce :
    (round : Round) (id : String) (channel : Channel) (alert : NotificationAlert) (other : Channel)
    (result : Result (Unit {0})) (run : Dispatch)
    → (alert.id ≡ id → other ≡ channel → delivered_count id channel run ≡ 0)
    → AtMostOnce id channel run
    → AtMostOnce id channel (settle_delivery round alert other result run)
unfolding settle_delivery
settle_delivery-AtMostOnce round id channel alert other (throw e) run fresh h =
    fail_delivery-AtMostOnce round id channel alert other e run h
settle_delivery-AtMostOnce round id channel alert other (ok _) run fresh h =
    AtMostOnce-send id channel run.rows _
      (record { alert_id = alert.id; channel = other; is_counted = true }) run.sends run.is_stopped
      (λ counted.
        let (both, _) = and-true (str_eq alert.id id && same_channel other channel) true counted in
        let (same_id, same) = and-true (str_eq alert.id id) (same_channel other channel) both in
        let e = same_channel-eq other channel same in
        let e' = (eq_iff alert.id id).0 same_id in
        (
          fresh e' e,
          subst₂
              (λ i c. All (IsSent id channel) (record_delivery_result i c round.now none run.rows))
              (sym e') (sym e) (delivered-made id channel round.now run.rows),
        ))
      (record_delivery_result-IsSent id alert.id channel other round.now none run.rows) h

-- A claim that succeeds is of an alert that was not delivered over the channel yet.
try_delivery-AtMostOnce :
    (round : Round) (id : String) (channel : Channel) (alert : NotificationAlert)
    (delivery : PlannedDelivery) (run : Dispatch)
    → AtMostOnce id channel run
    → AtMostOnce id channel (try_delivery round alert delivery run)
unfolding try_delivery delivered_count
try_delivery-AtMostOnce round id channel alert delivery run h =
    let claim = claim_channel alert.id delivery.channel round.now run.rows in
    let claimed = claim_channel-AtMostOnce id alert.id channel delivery.channel round.now run h in
    elim (Bool-cases claim.0) [
      | inl e ↦ rw e (
          settle_delivery-AtMostOnce round id channel alert delivery.channel
            (round.send delivery alert >> round.store_delivered alert delivery.channel)
            (record run { rows = claim.1 })
            (λ same_id same.
              delivered_count-claim id channel round.now run
                (subst₂ (λ i c. (claim_channel i c round.now run.rows).0 ≡ true) same_id same e) h)
            claimed)
      | inr e ↦ rw e claimed
    ]

AtMostOnce-either :
    (id : String) (channel : Channel) (b : Bool) (run run' : Dispatch)
    → AtMostOnce id channel run
    → AtMostOnce id channel run'
    → AtMostOnce id channel (if b then run else run')
AtMostOnce-either id channel true run run' h h' = h
AtMostOnce-either id channel false run run' h h' = h'

deliver-AtMostOnce :
    (round : Round) (id : String) (channel : Channel) (alert : NotificationAlert)
    (delivery : PlannedDelivery) (run : Dispatch)
    → AtMostOnce id channel run
    → AtMostOnce id channel (deliver round alert delivery run)
unfolding deliver
deliver-AtMostOnce round id channel alert delivery run h =
    AtMostOnce-either id channel run.is_stopped run (try_delivery round alert delivery run) h
      (try_delivery-AtMostOnce round id channel alert delivery run h)

deliver_all-AtMostOnce :
    (round : Round) (id : String) (channel : Channel) (alert : NotificationAlert)
    (deliveries : List PlannedDelivery) (run : Dispatch)
    → AtMostOnce id channel run
    → AtMostOnce id channel (deliver_all round alert deliveries run)
unfolding deliver_all
deliver_all-AtMostOnce round id channel alert [] run h = h
deliver_all-AtMostOnce round id channel alert (delivery ∷ deliveries) run h =
    deliver_all-AtMostOnce round id channel alert deliveries _
      (deliver-AtMostOnce round id channel alert delivery run h)

deliver_alerts-AtMostOnce :
    (round : Round) (id : String) (channel : Channel) (settings : DeliverySettings)
    (alerts : List NotificationAlert) (run : Dispatch)
    → AtMostOnce id channel run
    → AtMostOnce id channel (deliver_alerts round settings alerts run)
unfolding deliver_alerts
deliver_alerts-AtMostOnce round id channel settings [] run h = h
deliver_alerts-AtMostOnce round id channel settings (alert ∷ alerts) run h =
    deliver_alerts-AtMostOnce round id channel settings alerts _ (
      deliver_all-AtMostOnce round id channel alert
        (plan_notification_deliveries settings round.now delivery_retry_ms alert) run h)

dispatch_with-AtMostOnce :
    (round : Round) (settings : Option DeliverySettings) (id : String) (channel : Channel)
    (run : Dispatch)
    → AtMostOnce id channel run
    → AtMostOnce id channel (dispatch_with round settings run)
unfolding dispatch_with
dispatch_with-AtMostOnce round none id channel run h = h
dispatch_with-AtMostOnce round (some settings) id channel run h =
    deliver_alerts-AtMostOnce round id channel settings (pending_alerts run.rows) run h

dispatch-AtMostOnce :
    (round : Round) (id : String) (channel : Channel) (run : Dispatch)
    → AtMostOnce id channel run
    → AtMostOnce id channel (dispatch_pending_notification_alerts round run)
unfolding dispatch_pending_notification_alerts delivered_count
dispatch-AtMostOnce round id channel run h =
    dispatch_with-AtMostOnce round round.settings id channel (record run { is_stopped = false }) h

dispatch_rounds-AtMostOnce :
    (rounds : List Round) (id : String) (channel : Channel) (run : Dispatch)
    → AtMostOnce id channel run
    → AtMostOnce id channel (dispatch_rounds rounds run)
unfolding dispatch_rounds
dispatch_rounds-AtMostOnce [] id channel run h = h
dispatch_rounds-AtMostOnce (round ∷ rounds) id channel run h =
    dispatch_rounds-AtMostOnce rounds id channel (dispatch_pending_notification_alerts round run)
      (dispatch-AtMostOnce round id channel run h)

none_sent :
    (id : String) (channel : Channel) (rows : List NotificationAlert)
    → delivered_count id channel record { rows = rows; sends = []; is_stopped = false } ≡ 0
unfolding delivered_count
none_sent id channel rows = refl

AtMostOnce-bound :
    (id : String) (channel : Channel) (run : Dispatch)
    → AtMostOnce id channel run
    → delivered_count id channel run ≤ 1
AtMostOnce-bound id channel run (inl none_yet) = omega arith
AtMostOnce-bound id channel run (inr (one, all)) = omega arith

-- However many runs of the dispatcher follow one another, at whatever times, with whatever settings
-- and senders, whichever of their updates throw, and whatever alerts the table holds at first, at
-- most one delivery of an alert over a channel is counted as delivered, which takes a send that
-- returned and an update that was stored. A send that throws or whose update throws is not counted,
-- whether or not the message arrived.
pub dispatch-once :
    (rounds : List Round) (rows : List NotificationAlert) (id : String) (channel : Channel)
    → delivered_count id channel
        (dispatch_rounds rounds record { rows = rows; sends = []; is_stopped = false })
      ≤ 1
dispatch-once rounds rows id channel =
    AtMostOnce-bound id channel
      (dispatch_rounds rounds (record { rows = rows; sends = []; is_stopped = false }))
      (dispatch_rounds-AtMostOnce rounds id channel _ (inl (none_sent id channel rows)))
