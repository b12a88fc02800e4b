-- ===== src/Broker/Delivery/Checkpoint.antt =====
-- Checkpoint pulls of src/broker/delivery.ts: the pending messages of a session are marked
-- written, an injection is recorded for each, and the newly injected ones are handed over.
use xbus.Base.{
  ℕ, suc, ◌+◌, Bool, true, false, not, ◌&&◌, ◌||◌, List, [], ◌∷◌, ◌++◌, map, Option, none, some,
  ◌==◌, if◌then◌else◌, null_or_le, null_or_gt, update_where, count_where, select_where, first_where,
  order_by, take, min, max,
}
use xbus.Protocol.Errors.{ok}
use xbus.Protocol.States.{DeliveryState, completed}
use xbus.Identity.Components.{pull_hook_checkpoint}
use xbus.Broker.Readiness.{accepts_injection}
use xbus.Broker.Controls.{auto_delivery_enabled}
use xbus.Broker.Db.{
  Db, Message, Delivery, CheckpointId, SessionAuthority, Env, M, audit, transport_written,
  reinjection_body_suppressed, delivery_completed_no_response_required,
  injection_deferred_not_ready,
}
use xbus.Broker.Injections.{IssueParams, issue}
use xbus.Broker.Delivery.Sessions.{readiness_of, authorized, refresh_activity}

-- A message handed to the model, with the injection reference put into its metadata.
pub record PendingMessage : Type 0 where
  pub message : Message
  pub injection_id : ℕ

-- `state IN ('queued','retry_wait')`.
unfoldable pub is_pending : DeliveryState → Bool
is_pending DeliveryState.queued = true
is_pending DeliveryState.retry_wait = true
is_pending _ = false

unfoldable pub is_written : DeliveryState → Bool
is_written DeliveryState.transport_written = true
is_written _ = false

unfoldable pub message_row : ℕ → List Message → Option Message
unfolding first_where
message_row id ms = first_where (λ m. m.message_id == id) ms

-- The messages of the deliveries due at `now`, in no order yet.
unfoldable pub due_messages : ℕ → ℕ → List Message → List Delivery → List Message
unfolding is_pending
due_messages now sid ms [] = []
due_messages now sid ms (d ∷ ds) =
    let rest = due_messages now sid ms ds in
    if d.recipient_session_id == sid && (is_pending d.state && null_or_le d.next_attempt_at now)
    then elim (message_row d.message_id ms) [
      | none ↦ rest
      | some m ↦ if null_or_gt m.expires_at now then m ∷ rest else rest
    ]
    else rest

unfoldable pub pending_for_session_id : Env → ℕ → ℕ → Db → List Message
pending_for_session_id env sid limit db =
    take limit
      (order_by (λ m. m.recipient_sequence) (due_messages env.now sid db.messages db.deliveries))

abbrev pub ack_deadline_for : Env → Bool → Option ℕ
ack_deadline_for env true = some (env.now + env.ack_deadline_ms)
ack_deadline_for env false = none

-- The compare-and-set `queued`/`retry_wait` → `transport_written` of one message.
abbrev pub is_pending_of : ℕ → Delivery → Bool
is_pending_of id d = d.message_id == id && is_pending d.state

abbrev pub write : Env → SessionAuthority → Message → Delivery → Delivery
write env auth m d = record d {
  state = DeliveryState.transport_written;
  transport_written_at = some env.now;
  lease_expires_at = ack_deadline_for env m.requires_ack;
  target_instance_id = some auth.component_instance_id;
  target_generation = some auth.epoch;
  updated_at = env.now;
}

unfoldable pub log_write : SessionAuthority → ℕ → Db → Db
unfolding select_where
log_write auth id db = record db {
  transport_write_log =
      map
        (λ d. record {
          write_id = db.next_id;
          delivery_id = d.delivery_id;
          message_id = id;
          recipient_instance_id = auth.component_instance_id;
        })
        (select_where (λ d. d.message_id == id) db.deliveries)
      ++ db.transport_write_log;
  next_id = suc db.next_id;
}

abbrev pub needs_no_ack : Option Message → Bool
needs_no_ack none = false
needs_no_ack (some m) = not m.requires_ack

abbrev pub complete : Env → Delivery → Delivery
complete env d = record d {
  state = completed;
  application_completed_at = some env.now;
  lease_expires_at = none;
  next_attempt_at = none;
  failure_category = none;
  updated_at = env.now;
}

abbrev pub is_completable : Message → List Message → Delivery → Bool
is_completable m ms d =
    d.message_id == m.message_id
    && (is_written d.state && needs_no_ack (message_row m.message_id ms))

unfoldable pub complete_written : Env → Message → Db → Db
unfolding is_written update_where message_row audit
complete_written env m db =
    audit delivery_completed_no_response_required (some m.message_id) (record db {
      deliveries = update_where (is_completable m db.messages) (complete env) db.deliveries;
    })

-- A message that needs neither an acknowledgement nor a reply is done once it is handed over.
unfoldable pub complete_if_no_response_required : Env → Message → Db → Db
unfolding count_where complete_written
complete_if_no_response_required env m db =
    if m.requires_ack || m.requires_reply
    then db
    else (if count_where (is_completable m db.messages) db.deliveries == 0
        then db
        else complete_written env m db)

unfoldable pub mark_written : Env → SessionAuthority → Message → Db → Db
unfolding update_where is_pending log_write
mark_written env auth m db = log_write auth m.message_id (record db {
  deliveries = update_where (is_pending_of m.message_id) (write env auth m) db.deliveries;
})

abbrev pub first_injection : SessionAuthority → CheckpointId → Message → IssueParams
first_injection auth cp m = record {
  message_id = m.message_id;
  recipient_session_id = auth.session_id;
  recipient_epoch = auth.epoch;
  checkpoint_id = cp;
  component_id = auth.component_instance_id;
  logical_injection_number = 1;
}

-- The audit row of `checkpointPull`, which `checkpointPullForced` does not write.
abbrev pub note_written : Bool → ℕ → Db → Db
unfolding audit
note_written noted id db = record db {
  audit_events =
      if noted then (audit transport_written (some id) db).audit_events else db.audit_events;
  next_id = if noted then suc db.next_id else db.next_id;
}

-- The body is handed over only where the injection is new.
unfoldable pub present : Bool → Env → Message → Db → Option ℕ → Db × Option PendingMessage
unfolding audit
present noted env m db none = (
  audit reinjection_body_suppressed (some m.message_id) (note_written noted m.message_id db),
  none,
)
present noted env m db (some id) = (
  complete_if_no_response_required env m (note_written noted m.message_id db),
  some (record { message = m; injection_id = id }),
)

-- One round of the loop: nothing if the compare-and-set changes no row.
unfoldable pub inject_message :
    Bool → Env → SessionAuthority → CheckpointId → Message → Db → Db × Option PendingMessage
unfolding present
inject_message noted env auth cp m db =
    if count_where (is_pending_of m.message_id) db.deliveries == 0
    then (db, none)
    else (let issued = issue env (first_injection auth cp m) (mark_written env auth m db) in
        present noted env m issued.0 issued.1)

abbrev pub prepend : {A : Type 0} → Option A → List A → List A
prepend none xs = xs
prepend (some x) xs = x ∷ xs

unfoldable pub inject_all :
    Bool → Env → SessionAuthority → CheckpointId → List Message → Db → Db × List PendingMessage
inject_all noted env auth cp [] db = (db, [])
inject_all noted env auth cp (m ∷ ms) db =
    let (db1, handed) = inject_message noted env auth cp m db in
    let (db2, out) = inject_all noted env auth cp ms db1 in (db2, prepend handed out)

abbrev pub refresh_if_any : {A : Type 0} → Env → ℕ → List A → Db → Db
refresh_if_any env sid [] db = db
refresh_if_any env sid (x ∷ xs) db = refresh_activity env sid db

abbrev pub capped : ℕ → ℕ
capped limit = min (max 1 limit) 50

-- Nothing in it throws, so its transaction never rolls back.
unfoldable pub pull_pending :
    Bool → Env → SessionAuthority → CheckpointId → ℕ → M (List PendingMessage)
pull_pending noted env auth cp limit db =
    let (db', out) =
      inject_all noted env auth cp (pending_for_session_id env auth.session_id (capped limit) db)
        db in
    (refresh_if_any env auth.session_id out db', ok out)

unfoldable pub checkpoint_pull_forced :
    Env → SessionAuthority → CheckpointId → ℕ → M (List PendingMessage)
unfolding pull_pending
checkpoint_pull_forced env auth cp limit = pull_pending false env auth cp limit

-- The readiness gate and the scheduling control.
unfoldable pub gated_pull : Env → SessionAuthority → CheckpointId → ℕ → M (List PendingMessage)
unfolding audit
gated_pull env auth cp limit db =
    if accepts_injection (readiness_of auth.session_id db)
    then (if auto_delivery_enabled db.session_controls auth.session_id
        then pull_pending true env auth cp limit db
        else (db, ok []))
    else (audit injection_deferred_not_ready none db, ok [])

unfoldable pub checkpoint_pull : Env → SessionAuthority → CheckpointId → ℕ → M (List PendingMessage)
checkpoint_pull env auth cp limit =
    authorized auth pull_hook_checkpoint (gated_pull env auth cp limit)

unfoldable pub manual_pull : Env → SessionAuthority → CheckpointId → M (List PendingMessage)
unfolding audit
manual_pull env auth cp db =
    if accepts_injection (readiness_of auth.session_id db)
    then checkpoint_pull_forced env auth cp 1 db
    else (audit injection_deferred_not_ready none db, ok [])

-- A manual step passes the readiness gate and skips the scheduling control.
unfoldable pub process_next : Env → SessionAuthority → CheckpointId → M (List PendingMessage)
process_next env auth cp = authorized auth pull_hook_checkpoint (manual_pull env auth cp)
