-- ===== src/Broker/Delivery/Ack.antt =====
-- `xbus_ack` of src/broker/delivery.ts.
use xbus.Base.{
  ℕ, suc, Bool, true, false, ◌&&◌, List, ◌∷◌, Option, none, some, String, ◌==◌, if◌then◌else◌,
  update_where, count_where, first_where,
}
use xbus.Protocol.Errors.{
  Result, ok, err, message_not_found, not_recipient, illegal_state_transition,
}
use xbus.Protocol.States.{DeliveryState}
use xbus.Identity.Components.{Operation}
use xbus.Broker.Db.{
  Db, Message, Delivery, Receipt, ReceiptStatus, accepted, rejected, ReceiptOp, ack_op,
  SessionAuthority, Env, M, transaction, audit, AuditType, conflicting_ack_rejected, cas_conflict,
}
use xbus.Broker.Injections.{AuthorizeContext, authorize, consume, same_op}
use xbus.Broker.Delivery.Sessions.{authorized, refresh_activity}
use xbus.Broker.Delivery.Checkpoint.{message_row, is_written}

pub data AckStatus : Type 0 where
  accept reject : AckStatus

pub record AckInput : Type 0 where
  pub message_id : ℕ
  pub status : AckStatus
  pub note : Option String
  pub injection_id : Option ℕ

-- `{ state, duplicate }`. A repeated acknowledgement reports the delivery's present state, which
-- is absent only for a message with no delivery.
pub record AckResult : Type 0 where
  pub state : Option DeliveryState
  pub duplicate : Bool

abbrev pub receipt_status : AckStatus → ReceiptStatus
receipt_status accept = accepted
receipt_status reject = rejected

abbrev pub target_state : AckStatus → DeliveryState
target_state accept = DeliveryState.accepted
target_state reject = DeliveryState.rejected

abbrev pub same_ack_status : ReceiptStatus → AckStatus → Bool
same_ack_status accepted accept = true
same_ack_status rejected reject = true
same_ack_status _ _ = false

unfoldable pub ack_receipt : ℕ → ℕ → List Receipt → Option Receipt
unfolding first_where same_op
ack_receipt id sid rs =
    first_where
      (λ r. r.message_id == id && (r.receiver_session_id == sid && same_op r.receipt_type ack_op))
      rs

unfoldable pub delivery_state : ℕ → List Delivery → Option DeliveryState
unfolding first_where
delivery_state id ds = elim (first_where (λ d. d.message_id == id) ds) [
  | none ↦ none
  | some d ↦ some d.state
]

abbrev when_accepted : AckStatus → ℕ → Option ℕ
when_accepted accept now = some now
when_accepted reject now = none

abbrev note_or_default : Option String → String
note_or_default none = "rejected"
note_or_default (some s) = s

abbrev when_rejected : AckStatus → Option String → Option String
when_rejected accept _ = none
when_rejected reject n = some (note_or_default n)

abbrev pub acknowledge : Env → AckInput → Delivery → Delivery
acknowledge env input d = record d {
  state = target_state input.status;
  application_accepted_at = when_accepted input.status env.now;
  rejected_reason = when_rejected input.status input.note;
  updated_at = env.now;
}

abbrev pub is_written_of : ℕ → Delivery → Bool
is_written_of id d = d.message_id == id && is_written d.state

abbrev pub recorded : Result ℕ → Result (Option ℕ)
recorded (ok id) = ok (some id)
recorded (err e) = err e

abbrev pub authorize_context : SessionAuthority → ℕ → Option ℕ → AuthorizeContext
authorize_context auth id reference = record {
  message_id = id;
  session_id = auth.session_id;
  epoch = auth.epoch;
  injection_id = reference;
}

-- Authority comes from a recorded injection, where receipts are required.
unfoldable pub authorize_op :
    Env → ReceiptOp → SessionAuthority → ℕ → Option ℕ → Db → Result (Option ℕ)
authorize_op env op auth id reference db =
    if env.require_receipt
    then recorded (authorize env op (authorize_context auth id reference) db)
    else ok none

abbrev pub consume_if : Env → ReceiptOp → Option ℕ → Db → Db
consume_if env op none db = db
consume_if env op (some id) db = consume env id op db

abbrev pub new_ack_receipt : Env → SessionAuthority → AckInput → ℕ → Receipt
new_ack_receipt env auth input id = record {
  receipt_id = id;
  message_id = input.message_id;
  receiver_session_id = auth.session_id;
  receiver_instance_id = auth.instance_id;
  receiver_generation = auth.epoch;
  receipt_type = ack_op;
  status = receipt_status input.status;
  note = input.note;
  created_at = env.now;
}

unfoldable pub insert_ack_receipt : Env → SessionAuthority → AckInput → Db → Db
insert_ack_receipt env auth input db = record db {
  receipts = new_ack_receipt env auth input db.next_id ∷ db.receipts;
  next_id = suc db.next_id;
}

-- What follows the compare-and-set `transport_written` → `accepted` or `rejected`.
unfoldable pub settled : Env → SessionAuthority → AckInput → Option ℕ → Db → Db
unfolding update_where is_written audit insert_ack_receipt
settled env auth input injection db =
    let written = insert_ack_receipt env auth input (record db {
      deliveries =
          update_where (is_written_of input.message_id) (acknowledge env input) db.deliveries;
    }) in
    audit AuditType.ack (some input.message_id)
      (refresh_activity env auth.session_id (consume_if env ack_op injection written))

unfoldable pub settle : Env → SessionAuthority → AckInput → Option ℕ → M AckResult
unfolding count_where settled audit
settle env auth input injection db =
    if count_where (is_written_of input.message_id) db.deliveries == 0
    then (audit cas_conflict (some input.message_id) db, err illegal_state_transition)
    else (
      settled env auth input injection db,
      ok (record { state = some (target_state input.status); duplicate = false }),
    )

-- A repeat of the recorded status changes nothing; another status is a conflict.
unfoldable pub repeat : AckInput → Receipt → M AckResult
unfolding audit
repeat input existing db =
    if same_ack_status existing.status input.status
    then (
      db,
      ok (record { state = delivery_state input.message_id db.deliveries; duplicate = true }),
    )
    else (audit conflicting_ack_rejected (some input.message_id) db, err illegal_state_transition)

unfoldable pub settle_if : Env → SessionAuthority → AckInput → Result (Option ℕ) → M AckResult
settle_if env auth input (ok injection) db = settle env auth input injection db
settle_if env auth input (err e) db = (db, err e)

-- By the receipt that is recorded already, if there is one.
unfoldable pub ack_by : Env → SessionAuthority → AckInput → Option Receipt → M AckResult
ack_by env auth input (some existing) db = repeat input existing db
ack_by env auth input none db =
    settle_if env auth input (authorize_op env ack_op auth input.message_id input.injection_id db)
      db

unfoldable pub ack_received : Env → SessionAuthority → AckInput → M AckResult
ack_received env auth input db =
    ack_by env auth input (ack_receipt input.message_id auth.session_id db.receipts) db

unfoldable pub ack_of : Env → SessionAuthority → AckInput → Option Message → M AckResult
ack_of env auth input none db = (db, err message_not_found)
ack_of env auth input (some m) db =
    if m.recipient_session_id == auth.session_id
    then ack_received env auth input db
    else (db, err not_recipient)

unfoldable pub ack_message : Env → SessionAuthority → AckInput → M AckResult
ack_message env auth input db = ack_of env auth input (message_row input.message_id db.messages) db

unfoldable pub ack : Env → SessionAuthority → AckInput → M AckResult
ack env auth input = authorized auth Operation.ack (transaction (ack_message env auth input))
