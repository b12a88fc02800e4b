-- ===== src/Broker/Delivery/Numbered.antt =====
-- src/broker/delivery.ts: replies and the numbers that messages get per recipient.
use xbus.Base.{ℕ, Option, none, some, refl, ◌==◌}
use xbus.Protocol.Errors.{Result, ok, err, recipient_session_expired, not_recipient}
use xbus.Identity.Components.{Operation}
use xbus.Broker.Db.{
  Db, Message, SessionAuthority, Env, audit, reply_op, reply_rejected_recipient_expired,
  transaction,
}
use xbus.Broker.Sequences.{
  KeepsSequence, KeepsSequence-branch, transaction-KeepsSequence, IsSequenced, IsSequenced-append,
  authorized-KeepsSequence,
}
use xbus.Broker.Injections.{consume}
use xbus.Broker.Delivery.Sessions.{refresh_activity}
use xbus.Broker.Delivery.Checkpoint.{message_row}
use xbus.Broker.Delivery.Ack.{authorize_op}
use xbus.Broker.Delivery.Reply.{
  ReplyInput, reply_row, insert_reply, insert_reply_receipt, send_reply, reply_if, reply_by,
  reply_of, reply_received, reply_message, reply, has_expired, duplicate_reply,
}

send_reply-KeepsSequence :
    (env : Env) (auth : SessionAuthority) (input : ReplyInput) (orig : Message) (o : Option ℕ)
    (db : Db)
    → KeepsSequence db (send_reply env auth input orig o db).0
unfolding send_reply refresh_activity consume insert_reply_receipt insert_reply reply_row
send_reply-KeepsSequence env auth input orig none db h =
    IsSequenced-append db.recipient_sequences db.messages (reply_row env auth input orig db) refl h
send_reply-KeepsSequence env auth input orig (some id) db h =
    IsSequenced-append db.recipient_sequences db.messages (reply_row env auth input orig db) refl h

reply_if-KeepsSequence :
    (env : Env) (auth : SessionAuthority) (input : ReplyInput) (orig : Message)
    (r : Result (Option ℕ)) (db : Db)
    → KeepsSequence db (reply_if env auth input orig r db).0
unfolding reply_if audit
reply_if-KeepsSequence env auth input orig (err e) db = λ h. h
reply_if-KeepsSequence env auth input orig (ok o) db =
    KeepsSequence-branch db (has_expired orig.sender_session_id db)
      (
        audit reply_rejected_recipient_expired (some input.message_id) db,
        err recipient_session_expired,
      )
      (send_reply env auth input orig o db) (λ h. h)
      (send_reply-KeepsSequence env auth input orig o db)

reply_by-KeepsSequence :
    (env : Env) (auth : SessionAuthority) (input : ReplyInput) (orig : Message) (o : Option Message)
    (db : Db)
    → KeepsSequence db (reply_by env auth input orig o db).0
unfolding reply_by
reply_by-KeepsSequence env auth input orig (some dup) db = λ h. h
reply_by-KeepsSequence env auth input orig none db =
    reply_if-KeepsSequence env auth input orig
      (authorize_op env reply_op auth input.message_id input.injection_id db) db

reply_of-KeepsSequence :
    (env : Env) (auth : SessionAuthority) (input : ReplyInput) (o : Option Message) (db : Db)
    → KeepsSequence db (reply_of env auth input o db).0
unfolding reply_of reply_received
reply_of-KeepsSequence env auth input none db = λ h. h
reply_of-KeepsSequence env auth input (some m) db =
    let dup = duplicate_reply auth.session_id input.idempotency_key db.messages in
    KeepsSequence-branch db (m.recipient_session_id == auth.session_id)
      (reply_by env auth input m dup db) (db, err not_recipient)
      (reply_by-KeepsSequence env auth input m dup db) (λ h. h)

-- A reply, also one that is refused or repeated, keeps every message's number below its recipient's
-- cursor and the numbers of the messages to one recipient apart.
pub reply-IsSequenced :
    (env : Env) (auth : SessionAuthority) (input : ReplyInput) (db : Db)
    → IsSequenced db.recipient_sequences db.messages
    → let after = (reply env auth input db).0 in
      IsSequenced after.recipient_sequences after.messages
unfolding reply reply_message
reply-IsSequenced env auth input db =
    authorized-KeepsSequence auth Operation.reply (transaction (reply_message env auth input)) db
      (λ db'.
        transaction-KeepsSequence (reply_message env auth input) db'
          (reply_of-KeepsSequence env auth input (message_row input.message_id db'.messages) db'))
