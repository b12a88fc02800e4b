-- ===== src/Broker/Send/Evolve.antt =====
-- src/broker/store.ts: sends and the deliveries that are there.
use xbus.Base.{true, not, ◌&&◌, Option, none, some, if◌then◌else◌}
use xbus.Protocol.Errors.{Result, ok, err, recipient_session_expired, blocked}
use xbus.Protocol.States.{DeliveryState}
use xbus.Broker.Recipients.{Names, Target, resolve_recipient}
use xbus.Broker.Db.{
  Db, Message, SessionAuthority, Env, audit, send_rejected_recipient_expired, blocked_send_rejected,
}
use xbus.Broker.Evolution.{
  bystanding, Advances, Advances-branch, Evolves-refl, Evolves-append, transaction-Advances,
}
use xbus.Broker.Delivery.Reply.{has_expired}
use xbus.Broker.Send.{
  SendInput, SendResult, duplicate_send, send_message, send, send_new, send_to, send_by, replay,
  is_replayed, result_of, is_blocked_by, state_of_message,
}
use xbus.Broker.Send.Fresh.{send_new-tables}

send_new-Advances :
    (n : Names) (env : Env) (auth : SessionAuthority) (input : SendInput) (target : Target)
    (db : Db)
    → Advances bystanding db (send_new n env auth input target db).0
send_new-Advances n env auth input target db =
    let (ms, ds, seqs) = send_new-tables n env auth input db target in
    rw ds (Evolves-append db.deliveries _)

send_to-Advances :
    (n : Names) (env : Env) (auth : SessionAuthority) (input : SendInput) (o : Result Target)
    (db : Db)
    → Advances bystanding db (send_to n env auth input o db).0
unfolding send_to audit
send_to-Advances n env auth input (err e) db = Evolves-refl db.deliveries
send_to-Advances n env auth input (ok target) db =
    let refused : Db × Result SendResult = (audit blocked_send_rejected none db, err blocked) in
    Advances-branch db (has_expired target.session_id db)
      (audit send_rejected_recipient_expired none db, err recipient_session_expired)
      (if is_blocked_by n auth target db then refused else send_new n env auth input target db)
      (Evolves-refl db.deliveries)
      (Advances-branch db (is_blocked_by n auth target db) refused
        (send_new n env auth input target db) (Evolves-refl db.deliveries)
        (send_new-Advances n env auth input target db))

replay-Advances :
    (dup : Message) (s : DeliveryState) (db : Db) → Advances bystanding db (replay dup s db).0
unfolding replay audit
replay-Advances dup s db =
    Advances-branch db (not (is_replayed s) && has_expired dup.recipient_session_id db)
      (audit send_rejected_recipient_expired none db, err recipient_session_expired)
      (db, ok (result_of dup s true)) (Evolves-refl db.deliveries) (Evolves-refl db.deliveries)

send_by-Advances :
    (n : Names) (env : Env) (auth : SessionAuthority) (input : SendInput) (o : Option Message)
    (db : Db)
    → Advances bystanding db (send_by n env auth input o db).0
unfolding send_by
send_by-Advances n env auth input none db =
    send_to-Advances n env auth input (resolve_recipient n input.to db) db
send_by-Advances n env auth input (some dup) db =
    replay-Advances dup (state_of_message dup.message_id db.deliveries) db

-- A send, also one that is refused or repeated, changes no state of a delivery and no
-- delivery that is in a terminal state; it may add one.
pub send-Advances :
    (n : Names) (env : Env) (auth : SessionAuthority) (input : SendInput) (db : Db)
    → Advances bystanding db (send n env auth input db).0
unfolding send send_message
send-Advances n env auth input db = transaction-Advances (send_message n env auth input) db (
    send_by-Advances n env auth input
      (duplicate_send auth.session_id input.idempotency_key db.messages) db)
