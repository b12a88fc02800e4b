-- ===== src/Broker/Send.antt =====
-- `send` of src/broker/store.ts, with its helpers for threads.
pub mod Replays
pub mod Added
pub mod Fresh
pub mod Sequences
pub mod Evolve
use xbus.Base.{
  ℕ, ◌+◌, ◌*◌, Bool, true, false, not, ◌&&◌, List, [], ◌∷◌, ◌++◌, Option, none, some, String, ◌==◌,
  if◌then◌else◌, first_where, exists_where,
}
use xbus.Protocol.Errors.{Result, ok, err, recipient_session_expired, blocked}
use xbus.Protocol.States.{DeliveryState}
use xbus.Broker.Controls.{is_blocked}
use xbus.Broker.Recipients.{Names, Target, resolve_recipient, alias_for_session}
use xbus.Broker.Db.{
  Db, Message, Kind, Delivery, Thread, ThreadParticipant, SessionAuthority, Env, M, transaction,
  audit, send_rejected_recipient_expired, blocked_send_rejected, message_sent,
}
use xbus.Broker.Delivery.Sessions.{refresh_activity}
use xbus.Broker.Delivery.Reply.{
  has_key_of, next_sequence_of, advance_sequence, next_thread_sequence, touch_thread, queued_row,
  has_expired,
}

-- A key is a text that is not empty.
pub record SendInput : Type 0 where
  pub to : String
  pub text : String
  pub kind : Kind
  pub requires_ack : Bool
  pub requires_reply : Bool
  pub idempotency_key : Option ℕ
  pub ttl_seconds : Option ℕ

pub record SendResult : Type 0 where
  pub message_id : ℕ
  pub correlation_id : ℕ
  pub recipient_session_id : ℕ
  pub recipient_alias : String
  pub sequence : ℕ
  pub state : DeliveryState
  pub deduplicated : Bool

-- `INSERT OR IGNORE` of a thread and its cursor.
unfoldable pub ensure_thread : ℕ → List Thread → List Thread
unfolding exists_where
ensure_thread t xs =
    if exists_where (λ (x : Thread). x.thread_id == t) xs
    then xs
    else record { thread_id = t; next_sequence = 1; last_thread_sequence = 0 } ∷ xs

-- `INSERT OR IGNORE` on the key (thread, session).
unfoldable pub ensure_participant : ℕ → ℕ → List ThreadParticipant → List ThreadParticipant
unfolding exists_where
ensure_participant t sid ps =
    if exists_where (λ (p : ThreadParticipant). p.thread_id == t && p.session_id == sid) ps
    then ps
    else record { thread_id = t; session_id = sid; last_read_thread_seq = 0 } ∷ ps

-- A lifetime of 0 seconds is none.
abbrev pub expiry : Env → Option ℕ → Option ℕ
expiry env none = none
expiry env (some s) = if s == 0 then none else some (env.now + s * 1000)

-- The message opens the thread of its own id.
unfoldable pub message_of : Names → Env → SessionAuthority → SendInput → Target → Db → Message
message_of n env auth input target db = record {
  message_id = db.next_id;
  sender_session_id = auth.session_id;
  sender_alias = alias_for_session n auth.session_id db;
  recipient_session_id = target.session_id;
  recipient_alias = target.alias;
  kind = input.kind;
  correlation_id = db.next_id;
  causation_id = none;
  recipient_sequence = next_sequence_of target.session_id db.recipient_sequences;
  idempotency_key = input.idempotency_key;
  body_text = input.text;
  requires_ack = input.requires_ack;
  requires_reply = input.requires_reply;
  created_at = env.now;
  expires_at = expiry env input.ttl_seconds;
  thread_id = some db.next_id;
  thread_sequence = next_thread_sequence db.next_id (ensure_thread db.next_id db.threads);
}

-- The ids are, in order, the message's, the trace's, two participants' and the delivery's.
unfoldable pub insert_message : Names → Env → SessionAuthority → SendInput → Target → Db → Db
unfolding message_of queued_row ensure_thread ensure_participant
insert_message n env auth input target db =
    let row = message_of n env auth input target db in
    let delivery = queued_row env (db.next_id + 4) row.message_id target.session_id in
    record db {
      messages = db.messages ++ (row ∷ []);
      deliveries = db.deliveries ++ (delivery ∷ []);
      recipient_sequences = advance_sequence target.session_id db.recipient_sequences;
      threads = touch_thread db.next_id (ensure_thread db.next_id db.threads);
      thread_participants =
          ensure_participant db.next_id target.session_id
            (ensure_participant db.next_id auth.session_id db.thread_participants);
      next_id = db.next_id + 5;
    }

abbrev pub result_of : Message → DeliveryState → Bool → SendResult
result_of m s deduplicated = record {
  message_id = m.message_id;
  correlation_id = m.correlation_id;
  recipient_session_id = m.recipient_session_id;
  recipient_alias = m.recipient_alias;
  sequence = m.recipient_sequence;
  state = s;
  deduplicated = deduplicated;
}

unfoldable pub send_new : Names → Env → SessionAuthority → SendInput → Target → M SendResult
unfolding audit
send_new n env auth input target db = (
  audit message_sent (some db.next_id)
      (refresh_activity env auth.session_id (insert_message n env auth input target db)),
  ok (result_of (message_of n env auth input target db) DeliveryState.queued false),
)

-- The recipient has blocked the sender's alias.
unfoldable pub is_blocked_by : Names → SessionAuthority → Target → Db → Bool
unfolding is_blocked alias_for_session
is_blocked_by n auth target db =
    is_blocked n.lower db.blocked_peers target.session_id
      (n.lower (alias_for_session n auth.session_id db))

unfoldable pub send_to : Names → Env → SessionAuthority → SendInput → Result Target → M SendResult
unfolding audit has_expired
send_to n env auth input (err e) db = (db, err e)
send_to n env auth input (ok target) db =
    if has_expired target.session_id db
    then (audit send_rejected_recipient_expired none db, err recipient_session_expired)
    else (if is_blocked_by n auth target db
        then (audit blocked_send_rejected none db, err blocked)
        else send_new n env auth input target db)

-- The sender's message under the same idempotency key.
unfoldable pub duplicate_send : ℕ → Option ℕ → List Message → Option Message
unfolding first_where
duplicate_send sid none ms = none
duplicate_send sid (some key) ms = first_where (has_key_of sid key) ms

abbrev state_or_queued : Option Delivery → DeliveryState
state_or_queued none = DeliveryState.queued
state_or_queued (some d) = d.state

unfoldable pub state_of_message : ℕ → List Delivery → DeliveryState
unfolding first_where
state_of_message id ds = state_or_queued (first_where (λ (d : Delivery). d.message_id == id) ds)

-- The states that a retry is told of even when the recipient has expired.
unfoldable pub is_replayed : DeliveryState → Bool
is_replayed DeliveryState.completed = true
is_replayed DeliveryState.dead_letter = true
is_replayed DeliveryState.rejected = true
is_replayed DeliveryState.expired = true
is_replayed _ = false

unfoldable pub replay : Message → DeliveryState → M SendResult
unfolding is_replayed audit has_expired
replay dup s db =
    if not (is_replayed s) && has_expired dup.recipient_session_id db
    then (audit send_rejected_recipient_expired none db, err recipient_session_expired)
    else (db, ok (result_of dup s true))

unfoldable pub send_by : Names → Env → SessionAuthority → SendInput → Option Message → M SendResult
unfolding state_of_message
send_by n env auth input (some dup) db =
    replay dup (state_of_message dup.message_id db.deliveries) db
send_by n env auth input none db = send_to n env auth input (resolve_recipient n input.to db) db

unfoldable pub send_message : Names → Env → SessionAuthority → SendInput → M SendResult
unfolding duplicate_send
send_message n env auth input db =
    send_by n env auth input (duplicate_send auth.session_id input.idempotency_key db.messages) db

unfoldable pub send : Names → Env → SessionAuthority → SendInput → M SendResult
send n env auth input = transaction (send_message n env auth input)
