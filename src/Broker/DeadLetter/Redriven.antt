-- ===== src/Broker/DeadLetter/Redriven.antt =====
-- What a redrive of src/broker/deadletter.ts leaves.
use xbus.Base.{
  ℕ, ◌≡◌, refl, sym, ap, ◌∙◌, inl, inr, Bool, true, List, [], ◌∷◌, Option, none, some, String,
  arith, ◌==◌, Bool-cases, update_where, first_where,
}
use xbus.Protocol.States.{DeliveryState}
use xbus.Broker.Db.{Db, Message, Delivery, audit}
use xbus.Broker.Delivery.Checkpoint.{message_row}
use xbus.Broker.Reaper.IdleSessions.{is_dead}
use xbus.Broker.Reaper.Spared.{delivery_row}
use xbus.Broker.DeadLetter.{
  requeue_dead_letter, was_injected, requeued, redrive_valid, redrive_row, redrive_message, redrive,
  RedriveRefusal, RedriveResult, redriven, refused, Validation, valid, invalid,
}

-- A fresh attempt in place of an old one: queued under a new id, due at once, with every counter at
-- 0, no failure, no lease, no target and no instant of an earlier attempt, for the same message and
-- recipient.
pub record IsFresh (id : ℕ) (old d : Delivery) : Type 0 where
  pub new_id : d.delivery_id ≡ id
  pub same_message : d.message_id ≡ old.message_id
  pub same_recipient : d.recipient_session_id ≡ old.recipient_session_id
  pub is_queued : d.state ≡ DeliveryState.queued
  pub due : d.next_attempt_at ≡ none
  pub attempts : d.attempt ≡ 0
  pub transports : d.attempt_transport ≡ 0
  pub injections : d.attempt_injection ≡ 0
  pub timeouts : d.attempt_ack_timeout ≡ 0
  pub replies : d.attempt_reply ≡ 0
  pub no_failure : d.failure_category ≡ none
  pub no_lease : (d.lease_acquired_at ≡ none) × (d.lease_expires_at ≡ none)
  pub no_target : (d.target_instance_id ≡ none) × (d.target_generation ≡ none)
  pub unwritten : d.transport_written_at ≡ none
  pub unanswered : (d.application_accepted_at ≡ none) × (d.application_completed_at ≡ none)

dead_of : (s : DeliveryState) → is_dead s ≡ true → s ≡ DeliveryState.dead_letter
dead_of s h = ground arith

requeued-row :
    (now id new : ℕ) (ds : List Delivery) (d : Delivery)
    → delivery_row id ds ≡ some d
    → delivery_row id (update_where (λ d. d.message_id == id) (requeue_dead_letter new now) ds)
      ≡ some (requeue_dead_letter new now d)
unfolding update_where first_where
requeued-row now id new [] d h = cc
requeued-row now id new (x ∷ xs) d h = elim (Bool-cases (x.message_id == id)) [
  | inl hit ↦ rw (hit, hit) (ap (λ o. map_row new now o) (rw hit at h))
  | inr miss ↦ rw (miss, miss) (requeued-row now id new xs d (rw miss at h))
]
  where
    map_row : ℕ → ℕ → Option Delivery → Option Delivery
    map_row new now none = none
    map_row new now (some d) = some (requeue_dead_letter new now d)

requeued-IsFresh :
    (id new now : ℕ) (old : Delivery) → id ≡ new → IsFresh new old (requeue_dead_letter id now old)
requeued-IsFresh id new now old e = record {
  new_id = e;
  same_message = refl;
  same_recipient = refl;
  is_queued = refl;
  due = refl;
  attempts = refl;
  transports = refl;
  injections = refl;
  timeouts = refl;
  replies = refl;
  no_failure = refl;
  no_lease = (refl, refl);
  no_target = (refl, refl);
  unwritten = refl;
  unanswered = (refl, refl);
}

result-ne : {r : RedriveRefusal} {n : ℕ} {w : Bool} → ¬ (refused r ≡ redriven n w)
result-ne h = cc

redrive_valid-done :
    (v : Validation) (now id new : ℕ) (w : Bool) (db : Db)
    → (redrive_valid v now id db).1 ≡ redriven new w
    → (v ≡ valid)
      × (new ≡ db.next_id)
      × (w ≡ was_injected id db)
      × ((redrive_valid v now id db).0 ≡ requeued now id db)
unfolding redrive_valid
redrive_valid-done valid now id new w db h = (refl, cc, cc, refl)
redrive_valid-done (invalid reason) now id new w db h = absurd (result-ne h)

redrive_row-done :
    (v : Validation) (o : Option Delivery) (now id new : ℕ) (w : Bool) (db : Db)
    → (redrive_row v o now id db).1 ≡ redriven new w
    → (d : Delivery) × (o ≡ some d)
      × (is_dead d.state ≡ true)
      × ((redrive_valid v now id db).1 ≡ redriven new w)
      × (redrive_row v o now id db ≡ redrive_valid v now id db)
unfolding redrive_row
redrive_row-done v none now id new w db h = absurd (result-ne h)
redrive_row-done v (some d) now id new w db h = elim (Bool-cases (is_dead d.state)) [
  | inl e ↦ (d, refl, e, rw (e, redrive_row) at h, rw (e, redrive_row))
  | inr e ↦ absurd (result-ne (rw (e, redrive_row) at h))
]

redrive_message-done :
    (validate : ℕ → String → Validation) (lower : String → String) (o : Option Message)
    (now id new : ℕ) (w : Bool) (db : Db)
    → (redrive_message validate lower o now id db).1 ≡ redriven new w
    → (m : Message) × (o ≡ some m)
      × ((redrive_row
            (validate m.recipient_session_id (lower m.sender_alias))
            (delivery_row id db.deliveries)
            now
            id
            db).1
          ≡ redriven new w)
      × (redrive_message validate lower o now id db
          ≡ redrive_row
              (validate m.recipient_session_id (lower m.sender_alias))
              (delivery_row id db.deliveries)
              now
              id
              db)
unfolding redrive_message
redrive_message-done validate lower none now id new w db h = absurd (result-ne h)
redrive_message-done validate lower (some m) now id new w db h = (m, refl, h, refl)

-- A redrive that succeeds was of a dead letter whose recipient and sender pass the validation; it
-- warns exactly if an injection of the message is recorded, and leaves in the place of the dead
-- letter a queued delivery of the message to the same recipient, under the new id that it returns,
-- due at once, with all five counters at 0 and no failure, lease, target or instant of before.
pub redrive-IsFresh :
    (validate : ℕ → String → Validation) (lower : String → String) (now id new : ℕ) (w : Bool)
    (db : Db)
    → (redrive validate lower now id db).1 ≡ redriven new w
    → ((m : Message) × (message_row id db.messages ≡ some m)
        × (validate m.recipient_session_id (lower m.sender_alias) ≡ valid))
      × (w ≡ was_injected id db)
      × ((old : Delivery) × (delivery_row id db.deliveries ≡ some old)
          × (old.state ≡ DeliveryState.dead_letter)
          × ((d : Delivery) × (delivery_row id (redrive validate lower now id db).0.deliveries
                ≡ some d)
              × IsFresh new old d))
unfolding redrive requeued audit
redrive-IsFresh validate lower now id new w db h =
    let (m, found, step, same) =
      redrive_message-done validate lower (message_row id db.messages) now id new w db h in
    let v = validate m.recipient_session_id (lower m.sender_alias) in
    let (old, row, dead, inner, same') =
      redrive_row-done v (delivery_row id db.deliveries) now id new w db step in
    let (passed, fresh, warned, after) = redrive_valid-done v now id new w db inner in
    let left : delivery_row id (redrive validate lower now id db).0.deliveries
        ≡ some (requeue_dead_letter db.next_id now old) =
      ap (λ (x : Db × RedriveResult). delivery_row id x.0.deliveries) (same ∙ same')
      ∙ ap (λ (x : Db). delivery_row id x.deliveries) after
      ∙ requeued-row now id db.next_id db.deliveries old row in
    (
      (m, found, passed),
      warned,
      (
        old,
        row,
        dead_of old.state dead,
        (
          requeue_dead_letter db.next_id now old,
          left,
          requeued-IsFresh db.next_id new now old (sym fresh),
        ),
      ),
    )
