-- ===== src/Broker/Delivery/Due.antt =====
-- Which messages a checkpoint pull of src/broker/delivery.ts selects, and in which order.
use xbus.Base.{
  ℕ, zero, suc, ◌≤◌, ◌≡◌, inl, inr, Bool, true, ◌&&◌, List, [], ◌∷◌, some, arith, ◌==◌, ==_refl,
  All, All-weaken, All-take, All-order_by, IsOrdered, order_by, order_by-IsOrdered, take, length,
  Bool-cases, Option-cases, exists_where, exists_where-here, exists_where-there, first_where-holds,
  null_or_le, null_or_gt,
}
use xbus.Broker.Db.{Db, Message, Delivery, Env}
use xbus.Broker.Delivery.Checkpoint.{is_pending, message_row, due_messages, pending_for_session_id}

-- A delivery of the message to the session waits and its next attempt is due.
abbrev pub awaits : ℕ → ℕ → Message → Delivery → Bool
awaits now sid m d =
    d.message_id == m.message_id
    && (d.recipient_session_id == sid && (is_pending d.state && null_or_le d.next_attempt_at now))

abbrev pub Due : ℕ → ℕ → List Delivery → Message → Type 0
Due now sid ds m =
    (exists_where (awaits now sid m) ds ≡ true) × (null_or_gt m.expires_at now ≡ true)

message_row-id :
    (id : ℕ) (ms : List Message) (m : Message) → message_row id ms ≡ some m → m.message_id ≡ id
unfolding message_row
message_row-id id ms m e =
    ground (arith, first_where-holds (λ (x : Message). x.message_id == id) ms m e)

Due-cons :
    (now sid : ℕ) (ds : List Delivery) (d : Delivery) (m : Message)
    → Due now sid ds m
    → Due now sid (d ∷ ds) m
Due-cons now sid ds d m h = (exists_where-there (awaits now sid m) d ds h.0, h.1)

due_messages-Due :
    (now sid : ℕ) (ms : List Message) (ds : List Delivery)
    → All (Due now sid ds) (due_messages now sid ms ds)
unfolding due_messages
due_messages-Due now sid ms [] = tt
due_messages-Due now sid ms (d ∷ ds) =
    let later =
      All-weaken (Due now sid ds) (Due now sid (d ∷ ds)) (due_messages now sid ms ds)
        (Due-cons now sid ds d) (due_messages-Due now sid ms ds) in
    elim (Bool-cases
      (d.recipient_session_id == sid && (is_pending d.state && null_or_le d.next_attempt_at now))) [
        | inr off ↦ rw off later
        | inl on ↦ elim (Option-cases (message_row d.message_id ms)) [
          | inl gone ↦ rw (on, gone, due_messages) later
          | inr (m, found) ↦ elim (Bool-cases (null_or_gt m.expires_at now)) [
            | inr dead ↦ rw (on, found, dead, due_messages) later
            | inl alive ↦
                rw (on, found, alive, due_messages)
                  (
                    (
                      exists_where-here (awaits now sid m) d ds
                          (rw (message_row-id d.message_id ms m found, ==_refl d.message_id) on),
                      alive,
                    ),
                    later,
                  )
          ]
        ]
      ]

IsOrdered-take :
    {A : Type 0} (key : A → ℕ) (n : ℕ) (xs : List A) → IsOrdered key xs → IsOrdered key (take n xs)
IsOrdered-take key zero xs h = tt
IsOrdered-take key (suc n) [] h = tt
IsOrdered-take key (suc n) (x ∷ xs) h =
    (All-take (λ y. key x ≤ key y) n xs h.0, IsOrdered-take key n xs h.1)

length-take-le : {A : Type 0} (n : ℕ) (xs : List A) → length (take n xs) ≤ n
length-take-le zero xs = omega arith
length-take-le (suc n) [] = omega arith
length-take-le (suc n) (x ∷ xs) = omega (arith, length-take-le n xs)

-- A pull selects at most `limit` messages, in the order of their recipient sequence, each
-- unexpired and with a delivery to the session that waits, in `queued` or `retry_wait`, and whose
-- next attempt is due.
pub pending_for_session_id_lem :
    (env : Env) (sid limit : ℕ) (db : Db)
    → (length (pending_for_session_id env sid limit db) ≤ limit)
      × IsOrdered (λ m. m.recipient_sequence) (pending_for_session_id env sid limit db)
      × All (Due env.now sid db.deliveries) (pending_for_session_id env sid limit db)
unfolding pending_for_session_id
pending_for_session_id_lem env sid limit db =
    let due = due_messages env.now sid db.messages db.deliveries in
    let key = λ (m : Message). m.recipient_sequence in
    (
      length-take-le limit (order_by key due),
      IsOrdered-take key limit (order_by key due) (order_by-IsOrdered key due),
      All-take (Due env.now sid db.deliveries) limit (order_by key due) (
          All-order_by (Due env.now sid db.deliveries) key due
            (due_messages-Due env.now sid db.messages db.deliveries)),
    )
