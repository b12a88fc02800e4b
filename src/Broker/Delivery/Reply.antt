-- ===== src/Broker/Delivery/Reply.antt =====
-- `xbus_reply` of src/broker/delivery.ts, with the sequence allocator of src/broker/daemon.ts.
use xbus.Base.{
  ℕ, suc, Bool, true, false, ◌&&◌, List, [], ◌∷◌, ◌++◌, Option, none, some, String, ◌==◌,
  if◌then◌else◌, update_where, first_where, exists_where, max, is_some,
}
use xbus.Protocol.Errors.{
  Result, ok, err, message_not_found, not_recipient, recipient_session_expired,
}
use xbus.Protocol.States.{DeliveryState}
use xbus.Identity.Components.{Operation}
use xbus.Broker.Db.{
  Db, Message, Delivery, Kind, Receipt, ReceiptStatus, reply_op, Thread, RecipientSequence,
  SessionAuthority, Env, M, transaction, audit, AuditType, reply_rejected_recipient_expired,
}
use xbus.Broker.Injections.{same_op}
use xbus.Broker.Delivery.Sessions.{authorized, session_row, refresh_activity}
use xbus.Broker.Delivery.Checkpoint.{message_row}
use xbus.Broker.Delivery.Ack.{authorize_op, consume_if}

pub record ReplyInput : Type 0 where
  pub message_id : ℕ
  pub text : String
  pub outcome : ReceiptStatus
  pub idempotency_key : Option ℕ
  pub injection_id : Option ℕ

pub record ReplyResult : Type 0 where
  pub message_id : ℕ
  pub reply_message_id : ℕ
  pub correlation_id : ℕ
  pub recipient_session_id : ℕ
  pub sequence : ℕ
  pub deduplicated : Bool

-- The cursor of a recipient, 1 if it has none, and the table with the cursor moved on.
unfoldable pub next_sequence_of : ℕ → List RecipientSequence → ℕ
next_sequence_of sid [] = 1
next_sequence_of sid (r ∷ rs) =
    if r.recipient_session_id == sid then r.next_sequence else next_sequence_of sid rs

unfoldable pub advance_sequence : ℕ → List RecipientSequence → List RecipientSequence
advance_sequence sid [] = record { recipient_session_id = sid; next_sequence = 2 } ∷ []
advance_sequence sid (r ∷ rs) =
    if r.recipient_session_id == sid
    then record r { next_sequence = suc r.next_sequence } ∷ rs
    else r ∷ advance_sequence sid rs

-- `allocThreadSequence` and `touchThread`: the next number of a thread, and the thread with its
-- cursor and its high-water mark moved on.
unfoldable pub next_thread_sequence : ℕ → List Thread → ℕ
next_thread_sequence t [] = 1
next_thread_sequence t (x ∷ xs) =
    if x.thread_id == t then x.next_sequence else next_thread_sequence t xs

unfoldable pub touch_thread : ℕ → List Thread → List Thread
touch_thread t [] = record { thread_id = t; next_sequence = 2; last_thread_sequence = 1 } ∷ []
touch_thread t (x ∷ xs) =
    if x.thread_id == t
    then record x {
      next_sequence = suc x.next_sequence;
      last_thread_sequence = max x.last_thread_sequence x.next_sequence;
    }
      ∷ xs
    else x ∷ touch_thread t xs

abbrev pub has_key_of : ℕ → ℕ → Message → Bool
has_key_of sid key m = m.sender_session_id == sid && (is_key m.idempotency_key)
  where
    is_key : Option ℕ → Bool
    is_key none = false
    is_key (some k) = k == key

-- The replier's message under the same idempotency key.
unfoldable pub duplicate_reply : ℕ → Option ℕ → List Message → Option Message
unfolding first_where
duplicate_reply sid none ms = none
duplicate_reply sid (some key) ms = first_where (has_key_of sid key) ms

abbrev pub duplicate_result : Message → ReplyResult
duplicate_result m = record {
  message_id = m.message_id;
  reply_message_id = m.message_id;
  correlation_id = m.correlation_id;
  recipient_session_id = m.recipient_session_id;
  sequence = m.recipient_sequence;
  deduplicated = true;
}

abbrev thread_of : Message → ℕ
thread_of m = elim m.thread_id [ none ↦ m.correlation_id | some t ↦ t ]

unfoldable pub reply_row : Env → SessionAuthority → ReplyInput → Message → Db → Message
reply_row env auth input orig db = record {
  message_id = db.next_id;
  sender_session_id = auth.session_id;
  sender_alias = orig.recipient_alias;
  recipient_session_id = orig.sender_session_id;
  recipient_alias = orig.sender_alias;
  kind = Kind.reply;
  correlation_id = orig.correlation_id;
  causation_id = some input.message_id;
  recipient_sequence = next_sequence_of orig.sender_session_id db.recipient_sequences;
  idempotency_key = input.idempotency_key;
  body_text = input.text;
  requires_ack = false;
  requires_reply = false;
  created_at = env.now;
  expires_at = none;
  thread_id = some (thread_of orig);
  thread_sequence = next_thread_sequence (thread_of orig) db.threads;
}

unfoldable pub queued_row : Env → ℕ → ℕ → ℕ → Delivery
queued_row env id message sid = record {
  delivery_id = id;
  message_id = message;
  recipient_session_id = sid;
  state = DeliveryState.queued;
  target_instance_id = none;
  target_generation = none;
  fencing_token = none;
  attempt = 0;
  attempt_transport = 0;
  attempt_injection = 0;
  attempt_ack_timeout = 0;
  attempt_reply = 0;
  rejected_reason = none;
  failure_category = none;
  lease_acquired_at = none;
  lease_expires_at = none;
  transport_written_at = none;
  application_accepted_at = none;
  application_completed_at = none;
  next_attempt_at = none;
  created_at = env.now;
  updated_at = env.now;
}

unfoldable pub is_open : DeliveryState → Bool
is_open DeliveryState.accepted = true
is_open DeliveryState.transport_written = true
is_open _ = false

abbrev pub is_open_of : ℕ → Delivery → Bool
is_open_of id d = d.message_id == id && is_open d.state

abbrev pub finish : Env → Delivery → Delivery
finish env d = record d {
  state = DeliveryState.completed;
  application_completed_at = some env.now;
  updated_at = env.now;
}

-- `INSERT OR IGNORE` on the key (message, receiver, type).
unfoldable pub insert_reply_receipt : Env → SessionAuthority → ReplyInput → Db → Db
unfolding exists_where same_op
insert_reply_receipt env auth input db =
    let row : Receipt = record {
      receipt_id = db.next_id;
      message_id = input.message_id;
      receiver_session_id = auth.session_id;
      receiver_instance_id = auth.instance_id;
      receiver_generation = auth.epoch;
      receipt_type = reply_op;
      status = input.outcome;
      note = none;
      created_at = env.now;
    } in
    let clash =
      exists_where
        (λ r.
          r.message_id == input.message_id
          && (r.receiver_session_id == auth.session_id && same_op r.receipt_type reply_op))
        db.receipts in
    record db {
      receipts = if clash then db.receipts else row ∷ db.receipts;
      next_id = suc db.next_id;
    }

-- The reply's message and its delivery, the cursors, and the completion of the original delivery.
unfoldable pub insert_reply : Env → SessionAuthority → ReplyInput → Message → Db → Db
unfolding update_where reply_row queued_row is_open
insert_reply env auth input orig db =
    let row = reply_row env auth input orig db in
    let delivery = queued_row env (suc db.next_id) row.message_id orig.sender_session_id in
    record db {
      messages = db.messages ++ (row ∷ []);
      recipient_sequences = advance_sequence orig.sender_session_id db.recipient_sequences;
      threads = touch_thread (thread_of orig) db.threads;
      thread_participants =
          update_where (λ p. p.thread_id == thread_of orig && p.session_id == auth.session_id)
            (λ p. record p {
              last_read_thread_seq = max p.last_read_thread_seq row.thread_sequence;
            })
            db.thread_participants;
      deliveries =
          update_where (is_open_of input.message_id) (finish env)
            (db.deliveries ++ (delivery ∷ []));
      next_id = suc (suc db.next_id);
    }

unfoldable pub send_reply : Env → SessionAuthority → ReplyInput → Message → Option ℕ → M ReplyResult
unfolding audit
send_reply env auth input orig injection db =
    let row = reply_row env auth input orig db in
    let stored = insert_reply_receipt env auth input (insert_reply env auth input orig db) in
    let consumed = consume_if env reply_op injection stored in
    (
      audit AuditType.reply (some input.message_id) (refresh_activity env auth.session_id consumed),
      ok (record {
        message_id = input.message_id;
        reply_message_id = row.message_id;
        correlation_id = orig.correlation_id;
        recipient_session_id = orig.sender_session_id;
        sequence = row.recipient_sequence;
        deduplicated = false;
      }),
    )

-- Has the session of the original's sender expired?
unfoldable pub has_expired : ℕ → Db → Bool
has_expired sid db = elim (session_row sid db) [ none ↦ false | some s ↦ is_some s.expired_at ]

unfoldable pub reply_if :
    Env → SessionAuthority → ReplyInput → Message → Result (Option ℕ) → M ReplyResult
unfolding audit
reply_if env auth input orig (err e) db = (db, err e)
reply_if env auth input orig (ok injection) db =
    if has_expired orig.sender_session_id db
    then (
      audit reply_rejected_recipient_expired (some input.message_id) db,
      err recipient_session_expired,
    )
    else send_reply env auth input orig injection db

-- A repeated idempotency key gives the first reply's result and changes nothing.
unfoldable pub reply_by :
    Env → SessionAuthority → ReplyInput → Message → Option Message → M ReplyResult
reply_by env auth input orig (some dup) db = (db, ok (duplicate_result dup))
reply_by env auth input orig none db =
    reply_if env auth input orig
      (authorize_op env reply_op auth input.message_id input.injection_id db) db

unfoldable pub reply_received : Env → SessionAuthority → ReplyInput → Message → M ReplyResult
reply_received env auth input orig db =
    reply_by env auth input orig (duplicate_reply auth.session_id input.idempotency_key db.messages)
      db

unfoldable pub reply_of : Env → SessionAuthority → ReplyInput → Option Message → M ReplyResult
reply_of env auth input none db = (db, err message_not_found)
reply_of env auth input (some m) db =
    if m.recipient_session_id == auth.session_id
    then reply_received env auth input m db
    else (db, err not_recipient)

unfoldable pub reply_message : Env → SessionAuthority → ReplyInput → M ReplyResult
reply_message env auth input db =
    reply_of env auth input (message_row input.message_id db.messages) db

unfoldable pub reply : Env → SessionAuthority → ReplyInput → M ReplyResult
reply env auth input = authorized auth Operation.reply (transaction (reply_message env auth input))
