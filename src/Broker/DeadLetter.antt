-- ===== src/Broker/DeadLetter.antt =====
-- src/broker/deadletter.ts: redrive and discard of dead letters.
pub mod Discarded
pub mod Redriven
use xbus.Base.{
  ℕ, suc, ◌≡◌, refl, sym, ap, ◌∙◌, inl, inr, Bool, true, false, ◌&&◌, List, [], ◌∷◌, Option, none,
  some, String, arith, ◌==◌, ltb, if◌then◌else◌, Bool-cases, update_where, count_where, first_where,
}
use xbus.Protocol.States.{DeliveryState}
use xbus.Broker.Db.{
  Db, Message, Delivery, Injection, discarded, audit, dead_letter_redrive, dead_letter_discard,
}
use xbus.Broker.Delivery.Checkpoint.{message_row, is_pending}
use xbus.Broker.Reaper.IdleSessions.{is_dead}
use xbus.Broker.Reaper.Spared.{delivery_row}

pub data RedriveRefusal : Type 0 where
  no_message not_dead_lettered : RedriveRefusal
  revalidation_failed : Option String → RedriveRefusal

-- `ok` with the new delivery's id and whether the warning is given, or the reason against it.
pub data RedriveResult : Type 0 where
  redriven : ℕ → Bool → RedriveResult
  refused : RedriveRefusal → RedriveResult

-- What the caller's `validate` answers: a refusal may have a reason.
pub data Validation : Type 0 where
  valid : Validation
  invalid : Option String → Validation

abbrev pub requeue_dead_letter : ℕ → ℕ → Delivery → Delivery
requeue_dead_letter id now d = record d {
  delivery_id = id;
  state = DeliveryState.queued;
  failure_category = none;
  next_attempt_at = none;
  transport_written_at = none;
  application_accepted_at = none;
  application_completed_at = none;
  lease_expires_at = none;
  lease_acquired_at = none;
  target_instance_id = none;
  target_generation = none;
  attempt = 0;
  attempt_transport = 0;
  attempt_injection = 0;
  attempt_ack_timeout = 0;
  attempt_reply = 0;
  updated_at = now;
}

-- Was the message ever put into a context?
unfoldable pub was_injected : ℕ → Db → Bool
unfolding count_where
was_injected id db = ltb 0 (count_where (λ (i : Injection). i.message_id == id) db.injections)

unfoldable pub requeued : ℕ → ℕ → Db → Db
unfolding update_where audit
requeued now id db = audit dead_letter_redrive (some id) (record db {
  deliveries =
      update_where (λ d. d.message_id == id) (requeue_dead_letter db.next_id now) db.deliveries;
  next_id = suc db.next_id;
})

unfoldable pub redrive_valid : Validation → ℕ → ℕ → Db → Db × RedriveResult
unfolding requeued was_injected
redrive_valid valid now id db = (requeued now id db, redriven db.next_id (was_injected id db))
redrive_valid (invalid reason) now id db = (db, refused (revalidation_failed reason))

unfoldable pub redrive_row : Validation → Option Delivery → ℕ → ℕ → Db → Db × RedriveResult
unfolding redrive_valid
redrive_row v none now id db = (db, refused not_dead_lettered)
redrive_row v (some d) now id db =
    if is_dead d.state then redrive_valid v now id db else (db, refused not_dead_lettered)

unfoldable pub redrive_message :
    (ℕ → String → Validation) → (String → String) → Option Message → ℕ → ℕ → Db → Db × RedriveResult
unfolding redrive_row first_where
redrive_message validate lower none now id db = (db, refused no_message)
redrive_message validate lower (some m) now id db =
    redrive_row (validate m.recipient_session_id (lower m.sender_alias))
      (delivery_row id db.deliveries) now id db

-- `validate` and the strings' `toLowerCase` are the caller's. Nothing in the transaction throws.
unfoldable pub redrive :
    (ℕ → String → Validation) → (String → String) → ℕ → ℕ → Db → Db × RedriveResult
redrive validate lower now id db =
    redrive_message validate lower (message_row id db.messages) now id db

abbrev pub discard_dead_letter : ℕ → Delivery → Delivery
discard_dead_letter now d = record d {
  state = DeliveryState.cancelled;
  failure_category = some discarded;
  updated_at = now;
}

abbrev pub is_dead_letter_of : ℕ → Delivery → Bool
is_dead_letter_of id d = d.message_id == id && is_dead d.state

unfoldable pub discard : ℕ → ℕ → Db → Db × Bool
unfolding count_where update_where audit
discard now id db = if count_where (is_dead_letter_of id) db.deliveries == 0 then (db, false) else (
  audit dead_letter_discard (some id) (record db {
    deliveries = update_where (is_dead_letter_of id) (discard_dead_letter now) db.deliveries;
  }),
  true,
)

abbrev pub is_refused : RedriveResult → Bool
is_refused (refused r) = true
is_refused (redriven id w) = false
