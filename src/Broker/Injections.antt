-- ===== src/Broker/Injections.antt =====
-- src/broker/receipts.ts: context injections, at most one per message, epoch and logical number,
-- and the authorization of an acknowledgement or reply by one. The random capability hash, which
-- no authorization reads, is left out.
use xbus.Base.{
  ℕ, suc, ◌+◌, Bool, true, false, ◌&&◌, List, ◌∷◌, Option, none, some, ◌==◌, leb, if◌then◌else◌,
  update_where, select_where, first_where, exists_where, greatest_by,
}
use xbus.Protocol.Errors.{
  Result, ok, err, injection_not_found, not_recipient, epoch_mismatch, receipt_expired,
  receipt_replayed,
}
use xbus.Broker.Db.{
  Db, Injection, CheckpointId, from_caller, from_redelivery, from_mark, ReceiptOp, ack_op, reply_op,
  Env,
}

unfoldable pub same_checkpoint : CheckpointId → CheckpointId → Bool
same_checkpoint (from_caller a) (from_caller b) = a == b
same_checkpoint (from_redelivery a) (from_redelivery b) = a == b
same_checkpoint (from_mark a) (from_mark b) = a == b
same_checkpoint _ _ = false

unfoldable pub same_op : ReceiptOp → ReceiptOp → Bool
same_op ack_op ack_op = true
same_op reply_op reply_op = true
same_op _ _ = false

pub record IssueParams : Type 0 where
  pub message_id : ℕ
  pub recipient_session_id : ℕ
  pub recipient_epoch : ℕ
  pub checkpoint_id : CheckpointId
  pub component_id : ℕ
  pub logical_injection_number : ℕ

-- The key of the unique index `ux_injection_logical`.
abbrev pub has_key : ℕ → ℕ → ℕ → Injection → Bool
has_key m e l i = i.message_id == m && (i.recipient_epoch == e && i.logical_injection_number == l)

-- Is there an injection of a message in an epoch under a logical number?
unfoldable pub injected : List Injection → ℕ → ℕ → ℕ → Bool
unfolding exists_where
injected is m e l = exists_where (has_key m e l) is

-- The key of the unique index `ux_injection_checkpoint`.
unfoldable pub pulled_at : List Injection → ℕ → CheckpointId → Bool
unfolding exists_where same_checkpoint
pulled_at is m c = exists_where (λ i. i.message_id == m && same_checkpoint i.checkpoint_id c) is

abbrev pub new_injection : Env → IssueParams → ℕ → Injection
new_injection env p id = record {
  injection_id = id;
  message_id = p.message_id;
  recipient_session_id = p.recipient_session_id;
  recipient_epoch = p.recipient_epoch;
  checkpoint_id = p.checkpoint_id;
  injected_by_component_id = p.component_id;
  injected_at = env.now;
  expires_at = env.now + env.receipt_ttl_ms;
  logical_injection_number = p.logical_injection_number;
  consumed_at = none;
  consumed_op = none;
}

-- A collision on the checkpoint's index is caught and reported as `null` too.
unfoldable pub issue : Env → IssueParams → Db → Db × Option ℕ
issue env p db =
    if injected db.injections p.message_id p.recipient_epoch p.logical_injection_number
    then (db, none)
    else (if pulled_at db.injections p.message_id p.checkpoint_id
        then (record db { next_id = suc db.next_id }, none)
        else (
          record db {
            injections = new_injection env p db.next_id ∷ db.injections;
            next_id = suc db.next_id;
          },
          some db.next_id,
        ))

pub record AuthorizeContext : Type 0 where
  pub message_id : ℕ
  pub session_id : ℕ
  pub epoch : ℕ
  pub injection_id : Option ℕ

-- By the reference if one is given, else the latest injection of the message to the caller.
unfoldable pub candidate : AuthorizeContext → List Injection → Option Injection
unfolding first_where select_where greatest_by
candidate ctx is = elim ctx.injection_id [
  | some id ↦ first_where (λ i. i.injection_id == id) is
  | none ↦
      greatest_by (λ i. i.injected_at)
        (select_where
          (λ i.
            i.message_id == ctx.message_id
            && (i.recipient_session_id == ctx.session_id && i.recipient_epoch == ctx.epoch))
          is)
]

abbrev is_consumed_by : ReceiptOp → Option ReceiptOp → Bool
is_consumed_by op none = false
is_consumed_by op (some o) = same_op o op

-- The checks on the candidate row, in the source's order.
unfoldable pub check_injection : Env → ReceiptOp → AuthorizeContext → Injection → Result ℕ
unfolding same_op
check_injection env op ctx i =
    if i.message_id == ctx.message_id
    then (if i.recipient_session_id == ctx.session_id
        then (if i.recipient_epoch == ctx.epoch
            then (if leb i.expires_at env.now
                then err receipt_expired
                else (if is_consumed_by op i.consumed_op
                    then err receipt_replayed
                    else ok i.injection_id))
            else err epoch_mismatch)
        else err not_recipient)
    else err injection_not_found

unfoldable pub authorize_by : Env → ReceiptOp → AuthorizeContext → Option Injection → Result ℕ
authorize_by env op ctx none = err injection_not_found
authorize_by env op ctx (some i) = check_injection env op ctx i

unfoldable pub authorize : Env → ReceiptOp → AuthorizeContext → Db → Result ℕ
authorize env op ctx db = authorize_by env op ctx (candidate ctx db.injections)

unfoldable pub consume : Env → ℕ → ReceiptOp → Db → Db
unfolding update_where
consume env id op db = record db {
  injections =
      update_where (λ i. i.injection_id == id)
        (λ i. record i { consumed_at = some env.now; consumed_op = some op }) db.injections;
}
