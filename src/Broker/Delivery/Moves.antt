-- ===== src/Broker/Delivery/Moves.antt =====
-- Acknowledgements and replies of src/broker/delivery.ts and the moves of deliveries.
use xbus.Base.{
  ℕ, suc, ◌≡◌, refl, true, false, [], ◌∷◌, ◌++◌, Option, none, some, arith, ◌==◌, count_where,
}
use xbus.Protocol.Errors.{
  Result, ok, err, illegal_state_transition, not_recipient, recipient_session_expired,
}
use xbus.Protocol.States.{DeliveryState, is_terminal}
use xbus.Identity.Components.{Operation}
use xbus.Broker.Db.{
  Db, Message, Delivery, Receipt, ReceiptOp, ack_op, reply_op, SessionAuthority, Env, transaction,
  audit, cas_conflict, reply_rejected_recipient_expired,
}
use xbus.Broker.Evolution.{
  Caller, acknowledging, replying, Moves, one_move, accept_it, reject_it, answer, answer_accepted,
  Later, moved, Evolves-update_where, Evolves-append, Evolves-trans, Evolves-refl, Advances,
  Advances-same, Advances-branch, transaction-Advances,
}
use xbus.Broker.Injections.{consume}
use xbus.Broker.Delivery.Sessions.{refresh_activity}
use xbus.Broker.Delivery.Checkpoint.{is_written, message_row}
use xbus.Broker.Delivery.Ack.{
  AckInput, AckStatus, accept, reject, acknowledge, is_written_of, authorize_op, consume_if, settle,
  settled, settle_if, ack_by, ack_of, repeat, ack_receipt, ack_received, ack_message, ack,
  target_state,
}
use xbus.Broker.Delivery.Reply.{
  ReplyInput, reply_row, queued_row, is_open, is_open_of, finish, insert_reply_receipt,
  insert_reply, send_reply, reply_if, reply_by, reply_of, reply_received, reply_message, reply,
  has_expired, duplicate_reply,
}
use xbus.Broker.Delivery.Evolve.{written_of, and-right, authorized-Advances}

acknowledge-Later :
    (env : Env) (input : AckInput) (d : Delivery)
    → is_written_of input.message_id d ≡ true
    → Later acknowledging d (acknowledge env input d)
unfolding is_terminal
acknowledge-Later env input d h =
    let w =
      written_of d.state (and-right (d.message_id == input.message_id) (is_written d.state) h) in
    moved d (acknowledge env input d) refl refl refl (rw w (target input.status)) (rw w)
  where
    target : (s : AckStatus) → Moves acknowledging DeliveryState.transport_written (target_state s)
    target accept = one_move accept_it
    target reject = one_move reject_it

consume-Advances :
    {by : Caller} (env : Env) (op : ReceiptOp) (o : Option ℕ) (db : Db)
    → Advances by db (consume_if env op o db)
unfolding consume
consume-Advances env op none db = Evolves-refl db.deliveries
consume-Advances env op (some id) db = Evolves-refl db.deliveries

settled-Advances :
    (env : Env) (auth : SessionAuthority) (input : AckInput) (o : Option ℕ) (db : Db)
    → Advances acknowledging db (settled env auth input o db)
unfolding settled refresh_activity consume
settled-Advances env auth input none db =
    Evolves-update_where (is_written_of input.message_id) (acknowledge env input) db.deliveries
      (acknowledge-Later env input)
settled-Advances env auth input (some id) db =
    Evolves-update_where (is_written_of input.message_id) (acknowledge env input) db.deliveries
      (acknowledge-Later env input)

settle-Advances :
    (env : Env) (auth : SessionAuthority) (input : AckInput) (o : Option ℕ) (db : Db)
    → Advances acknowledging db (settle env auth input o db).0
unfolding settle audit
settle-Advances env auth input o db =
    Advances-branch db (count_where (is_written_of input.message_id) db.deliveries == 0)
      (audit cas_conflict (some input.message_id) db, err illegal_state_transition)
      (
        settled env auth input o db,
        ok (record { state = some (target_state input.status); duplicate = false }),
      )
      (Evolves-refl db.deliveries) (settled-Advances env auth input o db)

repeat-Advances :
    (input : AckInput) (r : Receipt) (db : Db) → Advances acknowledging db (repeat input r db).0
unfolding repeat
repeat-Advances input r db = Advances-same db (repeat input r db).0 (ground arith)

settle_if-Advances :
    (env : Env) (auth : SessionAuthority) (input : AckInput) (r : Result (Option ℕ)) (db : Db)
    → Advances acknowledging db (settle_if env auth input r db).0
unfolding settle_if
settle_if-Advances env auth input (ok o) db = settle-Advances env auth input o db
settle_if-Advances env auth input (err e) db = Evolves-refl db.deliveries

ack_by-Advances :
    (env : Env) (auth : SessionAuthority) (input : AckInput) (o : Option Receipt) (db : Db)
    → Advances acknowledging db (ack_by env auth input o db).0
unfolding ack_by
ack_by-Advances env auth input (some r) db = repeat-Advances input r db
ack_by-Advances env auth input none db =
    settle_if-Advances env auth input
      (authorize_op env ack_op auth input.message_id input.injection_id db) db

ack_of-Advances :
    (env : Env) (auth : SessionAuthority) (input : AckInput) (o : Option Message) (db : Db)
    → Advances acknowledging db (ack_of env auth input o db).0
unfolding ack_of ack_received
ack_of-Advances env auth input none db = Evolves-refl db.deliveries
ack_of-Advances env auth input (some m) db =
    Advances-branch db (m.recipient_session_id == auth.session_id)
      (ack_by env auth input (ack_receipt input.message_id auth.session_id db.receipts) db)
      (db, err not_recipient)
      (ack_by-Advances env auth input (ack_receipt input.message_id auth.session_id db.receipts) db)
      (Evolves-refl db.deliveries)

-- An acknowledgement, also one that is refused, makes only the moves of an
-- acknowledging caller, removes no delivery, and changes none that is in a terminal state.
pub ack-Advances :
    (env : Env) (auth : SessionAuthority) (input : AckInput) (db : Db)
    → Advances acknowledging db (ack env auth input db).0
unfolding ack ack_message
ack-Advances env auth input db =
    authorized-Advances auth Operation.ack (transaction (ack_message env auth input)) db (λ db'.
      transaction-Advances (ack_message env auth input) db'
        (ack_of-Advances env auth input (message_row input.message_id db'.messages) db'))

open_of :
    (s : DeliveryState)
    → is_open s ≡ true
    → Moves replying s DeliveryState.completed × (is_terminal s ≡ false)
unfolding is_open is_terminal
open_of DeliveryState.accepted h = (one_move answer_accepted, refl)
open_of DeliveryState.transport_written h = (one_move answer, refl)
open_of _ h = cc

finish-Later :
    (env : Env) (id : ℕ) (d : Delivery) → is_open_of id d ≡ true → Later replying d (finish env d)
finish-Later env id d h =
    let (p, t) = open_of d.state (and-right (d.message_id == id) (is_open d.state) h) in
    moved d (finish env d) refl refl refl p t

insert_reply-Advances :
    (env : Env) (auth : SessionAuthority) (input : ReplyInput) (orig : Message) (db : Db)
    → Advances replying db (insert_reply env auth input orig db)
unfolding insert_reply
insert_reply-Advances env auth input orig db =
    let row = reply_row env auth input orig db in
    let added =
      db.deliveries
      ++ (queued_row env (suc db.next_id) row.message_id orig.sender_session_id ∷ []) in
    Evolves-trans
      (Evolves-append db.deliveries
        (queued_row env (suc db.next_id) row.message_id orig.sender_session_id ∷ []))
      (Evolves-update_where (is_open_of input.message_id) (finish env) added
        (finish-Later env input.message_id))

send_reply-Advances :
    (env : Env) (auth : SessionAuthority) (input : ReplyInput) (orig : Message) (o : Option ℕ)
    (db : Db)
    → Advances replying db (send_reply env auth input orig o db).0
unfolding send_reply refresh_activity consume insert_reply_receipt
send_reply-Advances env auth input orig none db = insert_reply-Advances env auth input orig db
send_reply-Advances env auth input orig (some id) db = insert_reply-Advances env auth input orig db

reply_if-Advances :
    (env : Env) (auth : SessionAuthority) (input : ReplyInput) (orig : Message)
    (r : Result (Option ℕ)) (db : Db)
    → Advances replying db (reply_if env auth input orig r db).0
unfolding reply_if audit
reply_if-Advances env auth input orig (err e) db = Evolves-refl db.deliveries
reply_if-Advances env auth input orig (ok o) db =
    Advances-branch db (has_expired orig.sender_session_id db)
      (
        audit reply_rejected_recipient_expired (some input.message_id) db,
        err recipient_session_expired,
      )
      (send_reply env auth input orig o db) (Evolves-refl db.deliveries)
      (send_reply-Advances env auth input orig o db)

reply_by-Advances :
    (env : Env) (auth : SessionAuthority) (input : ReplyInput) (orig : Message) (o : Option Message)
    (db : Db)
    → Advances replying db (reply_by env auth input orig o db).0
unfolding reply_by
reply_by-Advances env auth input orig (some dup) db = Evolves-refl db.deliveries
reply_by-Advances env auth input orig none db =
    reply_if-Advances env auth input orig
      (authorize_op env reply_op auth input.message_id input.injection_id db) db

reply_of-Advances :
    (env : Env) (auth : SessionAuthority) (input : ReplyInput) (o : Option Message) (db : Db)
    → Advances replying db (reply_of env auth input o db).0
unfolding reply_of reply_received
reply_of-Advances env auth input none db = Evolves-refl db.deliveries
reply_of-Advances env auth input (some m) db =
    let dup = duplicate_reply auth.session_id input.idempotency_key db.messages in
    Advances-branch db (m.recipient_session_id == auth.session_id)
      (reply_by env auth input m dup db) (db, err not_recipient)
      (reply_by-Advances env auth input m dup db) (Evolves-refl db.deliveries)

-- A reply, also one that is refused, makes only the moves of a replying caller, removes
-- no delivery, and changes none that is in a terminal state; the reply's own delivery is added.
pub reply-Advances :
    (env : Env) (auth : SessionAuthority) (input : ReplyInput) (db : Db)
    → Advances replying db (reply env auth input db).0
unfolding reply reply_message
reply-Advances env auth input db =
    authorized-Advances auth Operation.reply (transaction (reply_message env auth input)) db (λ db'.
      transaction-Advances (reply_message env auth input) db'
        (reply_of-Advances env auth input (message_row input.message_id db'.messages) db'))
