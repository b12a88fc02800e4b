-- ===== src/Broker/DeadLetter/Discarded.antt =====
-- What src/broker/deadletter.ts makes of a message after a discard.
use xbus.Base.{
  ℕ, ◌≡◌, refl, inl, inr, Bool, true, false, List, [], ◌∷◌, Option, none, some, String, arith, ◌==◌,
  Bool-cases, update_where, count_where, first_where,
}
use xbus.Broker.Db.{Db, Message, Delivery, audit}
use xbus.Broker.Delivery.Checkpoint.{message_row}
use xbus.Broker.Reaper.IdleSessions.{is_dead}
use xbus.Broker.Reaper.Spared.{delivery_row}
use xbus.Broker.DeadLetter.{
  redrive_row, redrive_message, redrive, discard_dead_letter, is_dead_letter_of, discard,
  is_refused, not_dead_lettered, refused, Validation,
}

abbrev dead_row : Option Delivery → Bool
dead_row none = false
dead_row (some d) = is_dead d.state

-- A discard leaves no dead letter of the message.
discard-row :
    (now id : ℕ) (ds : List Delivery)
    → dead_row (delivery_row id (update_where (is_dead_letter_of id) (discard_dead_letter now) ds))
      ≡ false
unfolding update_where first_where
discard-row now id [] = refl
discard-row now id (d ∷ ds) = elim (Bool-cases (d.message_id == id)) [
  | inl hit ↦ elim (Bool-cases (is_dead d.state)) [
    | inl dead ↦ rw (hit, dead, hit)
    | inr sound ↦ rw (hit, sound, hit, sound)
  ]
  | inr miss ↦ rw (miss, miss) (discard-row now id ds)
]

kept-row :
    (now id : ℕ) (ds : List Delivery)
    → (count_where (is_dead_letter_of id) ds == 0) ≡ true
    → dead_row (delivery_row id ds) ≡ false
unfolding count_where first_where
kept-row now id [] h = refl
kept-row now id (d ∷ ds) h = ground (arith, kept-row now id ds)

redrive_row_sound :
    (v : Validation) (o : Option Delivery) (now id : ℕ) (db : Db)
    → dead_row o ≡ false
    → redrive_row v o now id db ≡ (db, refused not_dead_lettered)
unfolding redrive_row
redrive_row_sound v none now id db h = refl
redrive_row_sound v (some d) now id db h = rw h

redrive_message_sound :
    (validate : ℕ → String → Validation) (lower : String → String) (o : Option Message) (now id : ℕ)
    (db : Db)
    → dead_row (delivery_row id db.deliveries) ≡ false
    → ((redrive_message validate lower o now id db).0 ≡ db)
      × (is_refused (redrive_message validate lower o now id db).1 ≡ true)
unfolding redrive_message
redrive_message_sound validate lower none now id db h = (refl, refl)
redrive_message_sound validate lower (some m) now id db h =
    rw
      (redrive_row_sound (validate m.recipient_session_id (lower m.sender_alias))
        (delivery_row id db.deliveries) now id db h)
      (refl, refl)

discard-dead_row :
    (now id : ℕ) (db : Db) → dead_row (delivery_row id (discard now id db).0.deliveries) ≡ false
unfolding discard audit
discard-dead_row now id db =
    elim (Bool-cases (count_where (is_dead_letter_of id) db.deliveries == 0)) [
      | inl e ↦ rw e (kept-row now id db.deliveries e)
      | inr e ↦ rw e (discard-row now id db.deliveries)
    ]

-- A discard is final: after it, whether it found a dead letter or not, a redrive of the message at
-- any time is refused and changes nothing, whatever the validation would say.
pub discard-redrive :
    (validate : ℕ → String → Validation) (lower : String → String) (now later id : ℕ) (db : Db)
    → ((redrive validate lower later id (discard now id db).0).0 ≡ (discard now id db).0)
      × (is_refused (redrive validate lower later id (discard now id db).0).1 ≡ true)
unfolding redrive
discard-redrive validate lower now later id db =
    let after = (discard now id db).0 in
    redrive_message_sound validate lower (message_row id after.messages) later id after
      (discard-dead_row now id db)
