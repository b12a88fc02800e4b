-- ===== src/Broker/Send/Sequences.antt =====
-- src/broker/store.ts: sends and the numbers that messages get per recipient.
use xbus.Base.{true, not, ◌&&◌, Option, none, some, refl, if◌then◌else◌}
use xbus.Protocol.Errors.{Result, ok, err, recipient_session_expired, blocked}
use xbus.Protocol.States.{DeliveryState}
use xbus.Broker.Recipients.{Names, Target, resolve_recipient}
use xbus.Broker.Db.{
  Db, Message, SessionAuthority, Env, audit, send_rejected_recipient_expired, blocked_send_rejected,
}
use xbus.Broker.Sequences.{
  KeepsSequence, KeepsSequence-branch, transaction-KeepsSequence, IsSequenced, IsSequenced-append,
}
use xbus.Broker.Delivery.Reply.{has_expired}
use xbus.Broker.Send.{
  SendInput, SendResult, duplicate_send, send_message, send, message_of, send_new, send_to, send_by,
  replay, is_replayed, result_of, is_blocked_by, state_of_message,
}
use xbus.Broker.Send.Fresh.{send_new-tables}

send_new-KeepsSequence :
    (n : Names) (env : Env) (auth : SessionAuthority) (input : SendInput) (target : Target)
    (db : Db)
    → KeepsSequence db (send_new n env auth input target db).0
unfolding message_of
send_new-KeepsSequence n env auth input target db h =
    let (ms, ds, seqs) = send_new-tables n env auth input db target in
    rw (ms, seqs)
      (IsSequenced-append db.recipient_sequences db.messages (message_of n env auth input target db)
        refl h)

send_to-KeepsSequence :
    (n : Names) (env : Env) (auth : SessionAuthority) (input : SendInput) (o : Result Target)
    (db : Db)
    → KeepsSequence db (send_to n env auth input o db).0
unfolding send_to audit
send_to-KeepsSequence n env auth input (err e) db = λ h. h
send_to-KeepsSequence n env auth input (ok target) db =
    let refused : Db × Result SendResult = (audit blocked_send_rejected none db, err blocked) in
    KeepsSequence-branch db (has_expired target.session_id db)
      (audit send_rejected_recipient_expired none db, err recipient_session_expired)
      (if is_blocked_by n auth target db then refused else send_new n env auth input target db)
      (λ h. h)
      (KeepsSequence-branch db (is_blocked_by n auth target db) refused
        (send_new n env auth input target db) (λ h. h)
        (send_new-KeepsSequence n env auth input target db))

replay-KeepsSequence :
    (dup : Message) (s : DeliveryState) (db : Db) → KeepsSequence db (replay dup s db).0
unfolding replay audit
replay-KeepsSequence dup s db =
    KeepsSequence-branch db (not (is_replayed s) && has_expired dup.recipient_session_id db)
      (audit send_rejected_recipient_expired none db, err recipient_session_expired)
      (db, ok (result_of dup s true)) (λ h. h) (λ h. h)

send_by-KeepsSequence :
    (n : Names) (env : Env) (auth : SessionAuthority) (input : SendInput) (o : Option Message)
    (db : Db)
    → KeepsSequence db (send_by n env auth input o db).0
unfolding send_by
send_by-KeepsSequence n env auth input none db =
    send_to-KeepsSequence n env auth input (resolve_recipient n input.to db) db
send_by-KeepsSequence n env auth input (some dup) db =
    replay-KeepsSequence dup (state_of_message dup.message_id db.deliveries) db

-- A send, also one that is refused or repeated, keeps every message's number below its recipient's
-- cursor and the numbers of the messages to one recipient apart.
pub send-IsSequenced :
    (n : Names) (env : Env) (auth : SessionAuthority) (input : SendInput) (db : Db)
    → IsSequenced db.recipient_sequences db.messages
    → let after = (send n env auth input db).0 in
      IsSequenced after.recipient_sequences after.messages
unfolding send send_message
send-IsSequenced n env auth input db =
    transaction-KeepsSequence (send_message n env auth input) db (
      send_by-KeepsSequence n env auth input
        (duplicate_send auth.session_id input.idempotency_key db.messages) db)
