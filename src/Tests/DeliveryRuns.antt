-- ===== src/Tests/DeliveryRuns.antt =====
-- Runs of src/broker/delivery.ts.
use xbus.Base.{
  ◌≤◌, ◌≡◌, refl, length, All, IsOrdered, true, false, List, [], ◌∷◌, none, some, count_where,
  exists_where, first_where, insert_by, order_by, select_where, update_where, greatest_by,
}
use xbus.Protocol.States.{DeliveryState}
use xbus.Identity.Components.{Operation, is_allowed, assert_allowed}
use xbus.Broker.Controls.{get_control, auto_delivery_enabled}
use xbus.Broker.Db.{Db, Message, Injection, audit}
use xbus.Broker.Readiness.{accepts_injection}
use xbus.Broker.Injections.{
  issue, injected, pulled_at, same_checkpoint, authorize, authorize_by, candidate, check_injection,
}
use xbus.Broker.Delivery.Sessions.{
  authorized, assert_current_epoch, session_row, readiness_of, IsCurrent,
}
use xbus.Broker.Delivery.Checkpoint.{
  PendingMessage, checkpoint_pull, gated_pull, pull_pending, inject_all, inject_message,
  pending_for_session_id, due_messages, message_row, is_pending, log_write, mark_written, present,
  complete_if_no_response_required,
}
use xbus.Broker.Delivery.Presented.{Handed, checkpoint_pull-Handed}
use xbus.Broker.Delivery.Ack.{
  ack, ack_message, ack_of, ack_received, ack_by, ack_receipt, settle_if, settle, settled, accept,
  authorize_context, authorize_op, AckResult,
}
use xbus.Broker.Delivery.Acked.{ack-Authorizes, Authorizes}
use xbus.Broker.Delivery.Repeated.{ack_again, repeated}
use xbus.Broker.Delivery.Due.{Due, pending_for_session_id_lem}
use xbus.Tests.Data.{
  env, later, hook_auth, mcp_auth, queued_db, written_db, checkpoint, message, session, acceptance,
  rejection,
}

abbrev pub handed_out : List PendingMessage
handed_out =
    record { message = message 10; injection_id = 101 }
    ∷ record { message = message 11; injection_id = 104 }
    ∷ []

checkpoint_pull-Handed_example :
    Handed queued_db (checkpoint_pull env hook_auth checkpoint 10 queued_db).0 2 handed_out
unfolding checkpoint_pull authorized assert_allowed is_allowed assert_current_epoch session_row
    first_where gated_pull accepts_injection readiness_of auto_delivery_enabled get_control
    pull_pending inject_all pending_for_session_id order_by insert_by due_messages message_row
    is_pending inject_message count_where mark_written log_write update_where select_where issue
    injected exists_where pulled_at same_checkpoint present audit complete_if_no_response_required
checkpoint_pull-Handed_example =
    checkpoint_pull-Handed env hook_auth checkpoint 10 queued_db handed_out refl

abbrev pub first_result : AckResult
first_result = record { state = some DeliveryState.accepted; duplicate = false }

abbrev accepted_db : Db
accepted_db = (ack env mcp_auth acceptance written_db).0

ack-Authorizes_example :
    (is_allowed mcp_auth.role Operation.ack ≡ true)
    × IsCurrent mcp_auth written_db
    × ((m : Message) × (message_row 10 written_db.messages ≡ some m) × (m.recipient_session_id ≡ 7))
    × ((i : Injection) × (candidate (authorize_context mcp_auth 10 none) written_db.injections
          ≡ some i)
        × Authorizes env mcp_auth 10 i)
unfolding ack authorized assert_allowed is_allowed assert_current_epoch session_row first_where
    ack_message message_row ack_of ack_received ack_receipt ack_by authorize_op authorize
    authorize_by candidate select_where greatest_by check_injection settle_if settle count_where
    settled
ack-Authorizes_example =
    ack-Authorizes env mcp_auth acceptance written_db first_result refl refl refl

ack_again_example :
    ack later mcp_auth rejection accepted_db ≡ (accepted_db, repeated accept rejection accepted_db)
unfolding ack authorized assert_allowed is_allowed assert_current_epoch session_row first_where
    ack_message message_row ack_of ack_received ack_receipt ack_by authorize_op authorize
    authorize_by candidate select_where greatest_by check_injection settle_if settle count_where
    settled
ack_again_example =
    ack_again env later mcp_auth acceptance rejection written_db first_result refl refl

written_session : IsCurrent mcp_auth written_db
unfolding session_row first_where
written_session = (session 7, refl, refl)

pending_for_session_id_lem_example :
    (length (pending_for_session_id env 7 5 queued_db) ≤ 5)
    × IsOrdered (λ m. m.recipient_sequence) (pending_for_session_id env 7 5 queued_db)
    × All (Due 5000 7 queued_db.deliveries) (pending_for_session_id env 7 5 queued_db)
pending_for_session_id_lem_example = pending_for_session_id_lem env 7 5 queued_db
