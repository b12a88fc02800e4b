-- ===== src/Broker/Delivery/Repeated.antt =====
-- Repeated acknowledgements of src/broker/delivery.ts.
use xbus.Base.{
  ℕ, ◌≡◌, refl, sym, ◌∙◌, ap, subst, inl, inr, true, Option, none, some, arith, ◌==◌, ==_refl,
  if◌then◌else◌, Bool-cases, first_where, first_where-update_where, count_where,
}
use xbus.Protocol.Errors.{Result, ok, err, illegal_state_transition}
use xbus.Identity.Components.{Operation, is_allowed}
use xbus.Broker.Db.{
  Db, Message, Receipt, Session, SessionAuthority, ReceiptStatus, Env, ack_op, audit, transaction,
  transaction-ok,
}
use xbus.Broker.Injections.{consume, same_op}
use xbus.Broker.Delivery.Sessions.{
  authorized-ok, authorized-current, IsCurrent, session_row, refresh_activity,
}
use xbus.Broker.Delivery.Checkpoint.{message_row}
use xbus.Broker.Delivery.Ack.{
  AckInput, AckStatus, accept, reject, AckResult, authorize_op, insert_ack_receipt, new_ack_receipt,
  settled, settle, settle_if, repeat, ack_by, ack_of, ack_received, ack_message, ack, ack_receipt,
  same_ack_status, receipt_status, delivery_state, is_written_of,
}
use xbus.Broker.Delivery.Acked.{ack_of-ok, repeat_duplicate, err-ne-ok}

-- The tables hold the acknowledgement, and its caller may still act.
record Recorded (auth : SessionAuthority) (input : AckInput) (db : Db) : Type 0 where
  allowed : is_allowed auth.role Operation.ack ≡ true
  current : IsCurrent auth db
  message : Message
  found : message_row input.message_id db.messages ≡ some message
  mine : message.recipient_session_id ≡ auth.session_id
  receipt : Receipt
  receipted : ack_receipt input.message_id auth.session_id db.receipts ≡ some receipt
  status : same_ack_status receipt.status input.status ≡ true

same_status :
    (r : ReceiptStatus) (s t : AckStatus)
    → same_ack_status r s ≡ true
    → same_ack_status r t ≡ same_ack_status (receipt_status s) t
same_status r accept t h = ground arith
same_status r reject t h = ground arith

-- What a further acknowledgement returns, where one of the first status is recorded.
abbrev pub repeated : AckStatus → AckInput → Db → Result AckResult
repeated first again db =
    if same_ack_status (receipt_status first) again.status
    then ok (record { state = delivery_state again.message_id db.deliveries; duplicate = true })
    else err illegal_state_transition

session-refresh :
    (env : Env) (auth : SessionAuthority) (sid : ℕ) (db : Db)
    → IsCurrent auth db
    → IsCurrent auth (refresh_activity env sid db)
unfolding refresh_activity session_row
session-refresh env auth sid db (s, e, current) =
    let (s', e', same) =
      first_where-update_where (λ (x : Session). x.session_id == auth.session_id) _ _ db.sessions s
        (λ a. refl) e in
    (s', e', elim same [ inl p ↦ rw p current | inr p ↦ rw p current ])

status_refl : (s : AckStatus) → same_ack_status (receipt_status s) s ≡ true
status_refl accept = refl
status_refl reject = refl

settled-receipt :
    (env : Env) (auth : SessionAuthority) (input : AckInput) (o : Option ℕ) (db : Db)
    → (r : Receipt) × (ack_receipt input.message_id auth.session_id
          (settled env auth input o db).receipts
        ≡ some r)
      × (same_ack_status r.status input.status ≡ true)
unfolding settled ack_receipt refresh_activity consume same_op first_where insert_ack_receipt audit
settled-receipt env auth input none db = (
  new_ack_receipt env auth input db.next_id,
  rw (==_refl input.message_id, ==_refl auth.session_id) refl,
  status_refl input.status,
)
settled-receipt env auth input (some id) db = (
  new_ack_receipt env auth input db.next_id,
  rw (==_refl input.message_id, ==_refl auth.session_id) refl,
  status_refl input.status,
)

settled-messages :
    (env : Env) (auth : SessionAuthority) (input : AckInput) (o : Option ℕ) (db : Db)
    → (settled env auth input o db).messages ≡ db.messages
unfolding settled refresh_activity consume insert_ack_receipt audit
settled-messages env auth input none db = refl
settled-messages env auth input (some id) db = refl

settled-IsCurrent :
    (env : Env) (auth : SessionAuthority) (input : AckInput) (o : Option ℕ) (db : Db)
    → IsCurrent auth db
    → IsCurrent auth (settled env auth input o db)
unfolding settled consume insert_ack_receipt audit refresh_activity session_row
settled-IsCurrent env auth input none db current =
    session-refresh env auth auth.session_id db current
settled-IsCurrent env auth input (some id) db current =
    session-refresh env auth auth.session_id db current

-- Either outcome of a first acknowledgement that succeeds is `settled`.
settle-ok :
    (env : Env) (auth : SessionAuthority) (input : AckInput) (o : Option ℕ) (db : Db)
    (r : AckResult)
    → (settle env auth input o db).1 ≡ ok r
    → (settle env auth input o db).0 ≡ settled env auth input o db
unfolding settle
settle-ok env auth input o db r h =
    elim (Bool-cases (count_where (is_written_of input.message_id) db.deliveries == 0)) [
      | inl e ↦ absurd (err-ne-ok (rw (e, settle) at h))
      | inr e ↦ rw (e, settle)
    ]

module _ (env : Env) (auth : SessionAuthority) (input : AckInput) where
  settle_if-Recorded :
      (c : Result (Option ℕ)) (db : Db) (r : AckResult) (m : Message)
      → is_allowed auth.role Operation.ack ≡ true
      → IsCurrent auth db
      → message_row input.message_id db.messages ≡ some m
      → m.recipient_session_id ≡ auth.session_id
      → (settle_if env auth input c db).1 ≡ ok r
      → Recorded auth input (settle_if env auth input c db).0
  unfolding settle_if
  settle_if-Recorded (err e) db r m allowed current found mine h = absurd (err-ne-ok h)
  settle_if-Recorded (ok o) db r m allowed current found mine h =
      let (receipt, receipted, status) = settled-receipt env auth input o db in
      subst (λ x. Recorded auth input x) (sym (settle-ok env auth input o db r h))
        (record {
          allowed = allowed;
          current = settled-IsCurrent env auth input o db current;
          message = m;
          found = rw (settled-messages env auth input o db) found;
          mine = mine;
          receipt = receipt;
          receipted = receipted;
          status = status;
        })

  ack_by-Recorded :
      (existing : Option Receipt) (db : Db) (r : AckResult) (m : Message)
      → ack_receipt input.message_id auth.session_id db.receipts ≡ existing
      → is_allowed auth.role Operation.ack ≡ true
      → IsCurrent auth db
      → message_row input.message_id db.messages ≡ some m
      → m.recipient_session_id ≡ auth.session_id
      → (ack_by env auth input existing db).1 ≡ ok r
      → Recorded auth input (ack_by env auth input existing db).0
  unfolding ack_by
  ack_by-Recorded none db r m receipted allowed current found mine h =
      settle_if-Recorded (authorize_op env ack_op auth input.message_id input.injection_id db) db r
        m allowed current found mine h
  ack_by-Recorded (some existing) db r m receipted allowed current found mine h =
      let (_, same, status) = repeat_duplicate input existing db r h in
      subst (λ x. Recorded auth input x) (sym (ap (λ x. x.0) same))
        (record {
          allowed = allowed;
          current = current;
          message = m;
          found = found;
          mine = mine;
          receipt = existing;
          receipted = receipted;
          status = status;
        })

  ack-Recorded :
      (db : Db) (r : AckResult)
      → (ack env auth input db).1 ≡ ok r
      → Recorded auth input (ack env auth input db).0
  unfolding ack ack_message ack_received
  ack-Recorded db r h =
      let body = transaction (ack_message env auth input) in
      let (same, allowed, current) = authorized-ok auth Operation.ack body db r h in
      let (inner, whole) = transaction-ok (ack_message env auth input) db r (rw same at h) in
      let (m, found, mine, received, step) =
        ack_of-ok env auth input (message_row input.message_id db.messages) db r inner in
      subst (λ x. Recorded auth input x) (ap (λ x. x.0) (sym (same ∙ whole ∙ step)))
        (ack_by-Recorded (ack_receipt input.message_id auth.session_id db.receipts) db r m refl
          allowed current found mine received)

  -- A repeat runs into the receipt.
  Recorded-repeats :
      (env' : Env) (again : AckInput) (db : Db)
      → again.message_id ≡ input.message_id
      → Recorded auth input db
      → transaction (ack_message env' auth again) db ≡ (db, repeated input.status again db)
  unfolding ack_message ack_of ack_received ack_by repeat
  Recorded-repeats env' again db same h =
      let status = same_status h.receipt.status input.status again.status h.status in
      elim (Bool-cases (same_ack_status (receipt_status input.status) again.status)) [
        | inl e ↦ rw (same, h.found, h.mine, ==_refl auth.session_id, h.receipted, status, e) refl
        | inr e ↦ rw (same, h.found, h.mine, ==_refl auth.session_id, h.receipted, status, e) refl
      ]

-- After an acknowledgement that succeeds, a further one of the same message by the same caller, at
-- any later time and whatever its note or injection, changes no table: it is answered as a
-- duplicate if its status is the recorded one, and refused as an illegal transition if not.
pub ack_again :
    (env env' : Env) (auth : SessionAuthority) (input again : AckInput) (db : Db) (r : AckResult)
    → again.message_id ≡ input.message_id
    → (ack env auth input db).1 ≡ ok r
    → ack env' auth again (ack env auth input db).0
      ≡ ((ack env auth input db).0, repeated input.status again (ack env auth input db).0)
unfolding ack
ack_again env env' auth input again db r same h =
    let after = (ack env auth input db).0 in
    let done = ack-Recorded env auth input db r h in
    authorized-current auth Operation.ack (transaction (ack_message env' auth again)) after
      done.allowed done.current
    ∙ Recorded-repeats env auth input env' again after same done
