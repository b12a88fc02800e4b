-- ===== src/Broker/Delivery/Redeliver.antt =====
-- Explicit redelivery of src/broker/delivery.ts.
use xbus.Base.{ℕ, suc, ◌+◌, ◌&&◌, List, [], ◌∷◌, Option, none, some, ◌==◌, if◌then◌else◌, max}
use xbus.Protocol.Errors.{Result, ok, err, invalid_receipt}
use xbus.Identity.Components.{list_inbox}
use xbus.Broker.Db.{
  Db, Message, Injection, from_redelivery, SessionAuthority, Env, M, transaction, audit,
  redelivery_refused_not_injected, explicit_redelivery,
}
use xbus.Broker.Injections.{issue}
use xbus.Broker.Delivery.Sessions.{authorized, refresh_activity}
use xbus.Broker.Delivery.Checkpoint.{PendingMessage, message_row}

-- `MAX(logical_injection_number)` of a message's injections in an epoch, 0 if there is none.
unfoldable pub max_logical : ℕ → ℕ → List Injection → ℕ
max_logical m e [] = 0
max_logical m e (i ∷ is) =
    let rest = max_logical m e is in
    if i.message_id == m && i.recipient_epoch == e
    then max i.logical_injection_number rest
    else rest

-- The `ids.next()` of the checkpoint's name is drawn first.
unfoldable pub reissue : Env → SessionAuthority → ℕ → ℕ → Db → Db × Option ℕ
reissue env auth id logical db =
    issue env
      (record {
        message_id = id;
        recipient_session_id = auth.session_id;
        recipient_epoch = auth.epoch;
        checkpoint_id = from_redelivery db.next_id;
        component_id = auth.component_instance_id;
        logical_injection_number = logical;
      })
      (record db { next_id = suc db.next_id })

unfoldable pub represent :
    Env → SessionAuthority → Message → Db × Option ℕ → Db × Result (Option PendingMessage)
unfolding audit
represent env auth m (db, none) = (db, err invalid_receipt)
represent env auth m (db, some id) = (
  audit explicit_redelivery (some m.message_id) (refresh_activity env auth.session_id db),
  ok (some (record { message = m; injection_id = id })),
)

unfoldable pub redeliver_injected : Env → SessionAuthority → Message → M (Option PendingMessage)
unfolding audit represent
redeliver_injected env auth m db =
    let n = max_logical m.message_id auth.epoch db.injections in
    if n == 0
    then (audit redelivery_refused_not_injected (some m.message_id) db, ok none)
    else represent env auth m (reissue env auth m.message_id (n + 1) db)

unfoldable pub redeliver_of : Env → SessionAuthority → Option Message → M (Option PendingMessage)
redeliver_of env auth none db = (db, ok none)
redeliver_of env auth (some m) db =
    if m.recipient_session_id == auth.session_id
    then redeliver_injected env auth m db
    else (db, ok none)

unfoldable pub redeliver_message : Env → SessionAuthority → ℕ → M (Option PendingMessage)
redeliver_message env auth id db = redeliver_of env auth (message_row id db.messages) db

unfoldable pub redeliver : Env → SessionAuthority → ℕ → M (Option PendingMessage)
redeliver env auth id = authorized auth list_inbox (transaction (redeliver_message env auth id))
