-- ===== src/Tests/Data.antt =====
-- Tables, callers and instants that the examples run on.
use xbus.Base.{ℕ, true, false, [], ◌∷◌, none, some}
use xbus.Protocol.States.{DeliveryState}
use xbus.Identity.Components.{hook, mcp}
use xbus.Broker.Readiness.{ready_checkpoint}
use xbus.Broker.Retry.{default_backoff}
use xbus.Broker.Db.{
  Db, Message, request, Delivery, Session, NameState, CheckpointId, from_caller, SessionAuthority,
  Env, completed,
}
use xbus.Broker.Reaper.AckTimeouts.{ReaperEnv}
use xbus.Broker.Delivery.Ack.{AckInput, accept, reject}
use xbus.Broker.Delivery.Reply.{ReplyInput}

abbrev pub env : Env
env = record {
  now = 5000;
  ack_deadline_ms = 600000;
  receipt_ttl_ms = 900000;
  require_receipt = true;
}

abbrev pub later : Env
later = record env { now = 6000 }

abbrev pub hook_auth : SessionAuthority
hook_auth = record {
  session_id = 7;
  instance_id = 70;
  component_instance_id = 71;
  role = hook;
  epoch = 2;
  fencing_token = 1;
}

abbrev pub mcp_auth : SessionAuthority
mcp_auth = record hook_auth { role = mcp; component_instance_id = 72 }

abbrev pub session : ℕ → Session
session id = record {
  session_id = id;
  automatic_alias = "session-0";
  project_alias = none;
  active_epoch = 2;
  readiness = ready_checkpoint;
  last_meaningful_activity_at = 1000;
  expires_at = none;
  expired_at = none;
  expiration_reason = none;
  session_name_state = NameState.unnamed;
  session_name = none;
  normalized_session_name = none;
  logical_identity_id = some id;
  pending_name_expires_at = none;
  updated_at = 1000;
}

-- A request from session 3 to session 7.
abbrev pub message : ℕ → Message
message id = record {
  message_id = id;
  sender_session_id = 3;
  sender_alias = "asker";
  recipient_session_id = 7;
  recipient_alias = "helper";
  kind = request;
  correlation_id = 20;
  causation_id = none;
  recipient_sequence = id;
  idempotency_key = none;
  body_text = "please";
  requires_ack = true;
  requires_reply = true;
  created_at = 1000;
  expires_at = none;
  thread_id = none;
  thread_sequence = 1;
}

abbrev pub delivery : ℕ → DeliveryState → Delivery
delivery id s = record {
  delivery_id = id;
  message_id = id;
  recipient_session_id = 7;
  state = s;
  target_instance_id = none;
  target_generation = none;
  fencing_token = none;
  attempt = 0;
  attempt_transport = 0;
  attempt_injection = 0;
  attempt_ack_timeout = 0;
  attempt_reply = 0;
  rejected_reason = none;
  failure_category = none;
  lease_acquired_at = none;
  lease_expires_at = none;
  transport_written_at = none;
  application_accepted_at = none;
  application_completed_at = none;
  next_attempt_at = none;
  created_at = 1000;
  updated_at = 1000;
}

-- Two requests are queued for session 7.
abbrev pub queued_db : Db
queued_db = record {
  sessions = session 7 ∷ session 3 ∷ [];
  session_controls = [];
  blocked_peers = [];
  messages = message 10 ∷ message 11 ∷ [];
  deliveries = delivery 10 DeliveryState.queued ∷ delivery 11 DeliveryState.retry_wait ∷ [];
  injections = [];
  receipts = [];
  audit_events = [];
  transport_write_log = [];
  threads = [];
  thread_participants = [];
  recipient_sequences = [];
  delivery_leases = [];
  component_instances = [];
  aliases = [];
  physical_session_map = [];
  schedule_runs = [];
  next_id = 100;
}

-- The first of them has been written, and is recorded as injected.
abbrev pub written_db : Db
written_db = record queued_db {
  deliveries =
      record (delivery 10 DeliveryState.transport_written) { lease_expires_at = some 4000 }
      ∷ delivery 11 DeliveryState.retry_wait
      ∷ [];
  injections =
      record {
        injection_id = 50;
        message_id = 10;
        recipient_session_id = 7;
        recipient_epoch = 2;
        checkpoint_id = from_caller 1;
        injected_by_component_id = 71;
        injected_at = 4000;
        expires_at = 9000;
        logical_injection_number = 1;
        consumed_at = none;
        consumed_op = none;
      }
      ∷ record {
        injection_id = 51;
        message_id = 11;
        recipient_session_id = 7;
        recipient_epoch = 2;
        checkpoint_id = from_caller 2;
        injected_by_component_id = 71;
        injected_at = 4000;
        expires_at = 9000;
        logical_injection_number = 1;
        consumed_at = none;
        consumed_op = none;
      }
      ∷ [];
}

abbrev pub checkpoint : CheckpointId
checkpoint = from_caller 1

abbrev pub acceptance : AckInput
acceptance = record { message_id = 10; status = accept; note = none; injection_id = none }

abbrev pub rejection : AckInput
rejection = record acceptance { status = reject }

-- Of the message that waits for a retry.
abbrev pub unwritten : AckInput
unwritten = record acceptance { message_id = 11 }

abbrev pub answer : ReplyInput
answer = record {
  message_id = 10;
  text = "done";
  outcome = completed;
  idempotency_key = some 9;
  injection_id = none;
}

abbrev pub reaper : ReaperEnv
reaper = record {
  now = 5000;
  backoff = default_backoff;
  per_session_cap = 256;
  schedule_run_retention_ms = 1000;
  rng = λ _. record { num = 1; den = 1 };
}

-- One request has been written and its acknowledgement is overdue; the other needs none.
abbrev pub overdue_db : Db
overdue_db = record queued_db {
  messages = message 10 ∷ record (message 11) { requires_ack = false } ∷ [];
  deliveries =
      record (delivery 10 DeliveryState.transport_written) { lease_expires_at = some 4000 }
      ∷ record (delivery 11 DeliveryState.transport_written) { lease_expires_at = some 4000 }
      ∷ [];
}

-- Session 7 has been idle for too long.
abbrev pub idle_db : Db
idle_db = record overdue_db {
  sessions = record (session 7) { expires_at = some 4500 } ∷ session 3 ∷ [];
}

abbrev pub dead_db : Db
dead_db = record queued_db {
  deliveries =
      record (delivery 10 DeliveryState.dead_letter) { attempt_ack_timeout = 6 }
      ∷ delivery 11 DeliveryState.retry_wait
      ∷ [];
}
