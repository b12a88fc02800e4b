-- ===== src/Broker/Send/Fresh.antt =====
-- src/broker/store.ts: what a send that is no replay has checked, and what it leaves.
use xbus.Base.{
  ◌+◌, ◌≡◌, refl, ap, sym, ◌∙◌, inl, inr, true, false, not, ◌&&◌, [], ◌∷◌, ◌++◌, none, some,
  Bool-cases, Option-cases,
}
use xbus.Protocol.Errors.{Result, ok, err, err-ne-ok}
use xbus.Protocol.States.{DeliveryState}
use xbus.Broker.Recipients.{Names, Target, resolve_recipient}
use xbus.Broker.Db.{Db, Message, Delivery, SessionAuthority, Env, transaction-ok, audit}
use xbus.Broker.Delivery.Sessions.{refresh_activity, session_row}
use xbus.Broker.Delivery.Reply.{has_expired, queued_row, advance_sequence}
use xbus.Broker.Send.Added.{
  IsLive, IsFree, IsNewMessage, IsNewDelivery, has_expired-IsLive, is_blocked_by-IsFree,
  message_of-IsNewMessage, queued_row-IsNewDelivery,
}
use xbus.Broker.Send.{
  SendInput, SendResult, result_of, replay, is_replayed, duplicate_send, state_of_message,
  send_message, send_by, send, message_of, insert_message, send_new, send_to, is_blocked_by,
}

-- A send that went through to a target: it is no replay, the recipient is that target, has not
-- expired and has not blocked the sender.
abbrev pub IsDelivered : Names → Env → SessionAuthority → SendInput → Db → Target → Type 0
IsDelivered n env auth input db target =
    (duplicate_send auth.session_id input.idempotency_key db.messages ≡ none)
    × (resolve_recipient n input.to db ≡ ok target)
    × (has_expired target.session_id db ≡ false)
    × (is_blocked_by n auth target db ≡ false)

replay-deduplicated :
    (dup : Message) (s : DeliveryState) (db : Db) (r : SendResult)
    → (replay dup s db).1 ≡ ok r
    → r.deduplicated ≡ true
unfolding replay
replay-deduplicated dup s db r h =
    elim (Bool-cases (not (is_replayed s) && has_expired dup.recipient_session_id db)) [
      | inl e ↦ absurd (err-ne-ok (rw e at h))
      | inr e ↦ let same : ok (result_of dup s true) ≡ ok r = rw e at h in cc
    ]

send_to-new :
    (n : Names) (env : Env) (auth : SessionAuthority) (input : SendInput) (db : Db)
    (o : Result Target) (r : SendResult)
    → (send_to n env auth input o db).1 ≡ ok r
    → (target : Target) × (o ≡ ok target)
      × (has_expired target.session_id db ≡ false)
      × (is_blocked_by n auth target db ≡ false)
      × (send_to n env auth input o db ≡ send_new n env auth input target db)
unfolding send_to
send_to-new n env auth input db (err e) r h = absurd (err-ne-ok h)
send_to-new n env auth input db (ok target) r h =
    elim (Bool-cases (has_expired target.session_id db)) [
      | inl gone ↦ absurd (err-ne-ok (rw gone at h))
      | inr live ↦ elim (Bool-cases (is_blocked_by n auth target db)) [
        | inl shut ↦ absurd (err-ne-ok (rw (live, shut) at h))
        | inr free ↦ (target, refl, live, free, rw (live, free) refl)
      ]
    ]

-- A send without a recorded message of its key.
pub send-unused :
    (n : Names) (env : Env) (auth : SessionAuthority) (input : SendInput) (db : Db) (r : SendResult)
    → duplicate_send auth.session_id input.idempotency_key db.messages ≡ none
    → (send n env auth input db).1 ≡ ok r
    → (target : Target) × IsDelivered n env auth input db target
      × (send n env auth input db ≡ send_new n env auth input target db)
unfolding send send_message send_by
send-unused n env auth input db r e h =
    let (inner, same) = transaction-ok (send_message n env auth input) db r h in
    let (target, found, live, free, out) =
      send_to-new n env auth input db (resolve_recipient n input.to db) r (rw e at inner) in
    (target, (e, found, live, free), same ∙ rw e out)

send-used :
    (n : Names) (env : Env) (auth : SessionAuthority) (input : SendInput) (db : Db) (r : SendResult)
    (dup : Message)
    → duplicate_send auth.session_id input.idempotency_key db.messages ≡ some dup
    → (send n env auth input db).1 ≡ ok r
    → r.deduplicated ≡ true
unfolding send send_message send_by
send-used n env auth input db r dup e h =
    let (inner, same) = transaction-ok (send_message n env auth input) db r h in
    replay-deduplicated dup (state_of_message dup.message_id db.deliveries) db r (rw e at inner)

send-new :
    (n : Names) (env : Env) (auth : SessionAuthority) (input : SendInput) (db : Db) (r : SendResult)
    → (send n env auth input db).1 ≡ ok r
    → r.deduplicated ≡ false
    → (target : Target) × IsDelivered n env auth input db target
      × (send n env auth input db ≡ send_new n env auth input target db)
send-new n env auth input db r h fresh =
    elim (Option-cases (duplicate_send auth.session_id input.idempotency_key db.messages)) [
      | inr (dup, e) ↦ let used = send-used n env auth input db r dup e h in cc
      | inl e ↦ send-unused n env auth input db r e h
    ]

pub send_new-tables :
    (n : Names) (env : Env) (auth : SessionAuthority) (input : SendInput) (db : Db)
    (target : Target)
    → let m = message_of n env auth input target db in
      let after = (send_new n env auth input target db).0 in
      (after.messages ≡ db.messages ++ (m ∷ []))
      × (after.deliveries
          ≡ db.deliveries ++ (queued_row env (db.next_id + 4) m.message_id target.session_id ∷ []))
      × (after.recipient_sequences ≡ advance_sequence target.session_id db.recipient_sequences)
unfolding send_new refresh_activity insert_message audit
send_new-tables n env auth input db target = (refl, refl, refl)

-- A send that returns and is no duplicate had no message of the caller under its key, and was to one
-- session that the recipient's text names, that has not expired and that has no block of the
-- sender's alias. It added one message, from the caller to that session, with the text, the needs
-- and the key of the input, under a new id and the recipient's next sequence number, and one queued
-- delivery of it, due at once and never tried; it returns that message's ids, number and state.
pub send-IsDelivered :
    (n : Names) (env : Env) (auth : SessionAuthority) (input : SendInput) (db : Db) (r : SendResult)
    → (send n env auth input db).1 ≡ ok r
    → r.deduplicated ≡ false
    → (duplicate_send auth.session_id input.idempotency_key db.messages ≡ none)
      × ((target : Target) × (resolve_recipient n input.to db ≡ ok target)
          × IsLive (session_row target.session_id db)
          × IsFree n auth target db
          × ((m : Message) × ((d : Delivery) × let after = (send n env auth input db).0 in
                  (after.messages ≡ db.messages ++ (m ∷ []))
                  × (after.deliveries ≡ db.deliveries ++ (d ∷ []))
                  × IsNewMessage env auth input target db m
                  × IsNewDelivery m d
                  × (r.message_id ≡ m.message_id)
                  × (r.sequence ≡ m.recipient_sequence)
                  × (r.recipient_session_id ≡ target.session_id)
                  × (r.state ≡ d.state))))
unfolding send_new
send-IsDelivered n env auth input db r h fresh =
    let (target, (unused, found, live, free), same) = send-new n env auth input db r h fresh in
    let (ms, ds, seqs) = send_new-tables n env auth input db target in
    let m = message_of n env auth input target db in
    let d = queued_row env (db.next_id + 4) m.message_id target.session_id in
    let returned : ok (result_of m DeliveryState.queued false) ≡ ok r = rw same at h in
    let given : result_of m DeliveryState.queued false ≡ r = cc in
    let made = message_of-IsNewMessage n env auth input target db in
    let queued = queued_row-IsNewDelivery n env auth input target db (db.next_id + 4) in
    (
      unused,
      (
        target,
        found,
        has_expired-IsLive target.session_id db live,
        is_blocked_by-IsFree n auth target db free,
        (
          m,
          (
            d,
            (
              rw same ms,
              rw same ds,
              made,
              queued,
              ap (λ (x : SendResult). x.message_id) (sym given),
              ap (λ (x : SendResult). x.sequence) (sym given),
              ap (λ (x : SendResult). x.recipient_session_id) (sym given) ∙ made.to_target,
              ap (λ (x : SendResult). x.state) (sym given) ∙ sym queued.is_queued,
            ),
          ),
        ),
      ),
    )
