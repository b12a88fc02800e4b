-- ===== src/Broker/Delivery/Acked.antt =====
-- What an acknowledgement of src/broker/delivery.ts rests on.
use xbus.Base.{
  ℕ, ◌<◌, ◌≡◌, refl, sym, ◌∙◌, ap, inl, inr, Bool, true, false, Option, none, some, arith, ◌==◌,
  Bool-cases,
}
use xbus.Protocol.Errors.{XbusErrorCode, Result, ok, err}
use xbus.Identity.Components.{Operation, is_allowed}
use xbus.Broker.Db.{
  Db, Message, Receipt, Injection, ReceiptOp, ack_op, SessionAuthority, Env, transaction,
  transaction-ok,
}
use xbus.Broker.Injections.{authorize, authorize_by, candidate, check_injection}
use xbus.Broker.Delivery.Sessions.{authorized-ok, IsCurrent}
use xbus.Broker.Delivery.Checkpoint.{message_row}
use xbus.Broker.Delivery.Ack.{
  AckInput, recorded, authorize_context, AckResult, authorize_op, settle_if, repeat, ack_by, ack_of,
  ack_received, ack_message, ack, ack_receipt, same_ack_status,
}

-- The injection that an operation was authorized by: recorded for this message and this caller,
-- in this epoch, not expired.
pub record Authorizes (env : Env) (auth : SessionAuthority) (id : ℕ) (i : Injection) : Type 0 where
  pub for_message : i.message_id ≡ id
  pub for_session : i.recipient_session_id ≡ auth.session_id
  pub for_epoch : i.recipient_epoch ≡ auth.epoch
  pub unexpired : env.now < i.expires_at

check_injection-ok :
    (env : Env) (op : ReceiptOp) (auth : SessionAuthority) (id : ℕ) (r : Option ℕ) (i : Injection)
    (n : ℕ)
    → check_injection env op (authorize_context auth id r) i ≡ ok n
    → Authorizes env auth id i
unfolding check_injection
check_injection-ok env op auth id r i n h = ground arith

authorize_by-ok :
    (env : Env) (op : ReceiptOp) (auth : SessionAuthority) (id : ℕ) (r : Option ℕ)
    (o : Option Injection) (n : Option ℕ)
    → recorded (authorize_by env op (authorize_context auth id r) o) ≡ ok n
    → (i : Injection) × (o ≡ some i) × Authorizes env auth id i
unfolding authorize_by
authorize_by-ok env op auth id r none n h = cc
authorize_by-ok env op auth id r (some i) n h =
    (i, refl, check_recorded (check_injection env op (authorize_context auth id r) i) refl h)
  where
    check_recorded :
        (c : Result ℕ)
        → check_injection env op (authorize_context auth id r) i ≡ c
        → recorded c ≡ ok n
        → Authorizes env auth id i
    check_recorded (ok k) e h = check_injection-ok env op auth id r i k e
    check_recorded (err x) e h = cc

pub authorize_op-ok :
    (env : Env) (op : ReceiptOp) (auth : SessionAuthority) (id : ℕ) (r : Option ℕ) (db : Db)
    (n : Option ℕ)
    → env.require_receipt ≡ true
    → authorize_op env op auth id r db ≡ ok n
    → (i : Injection) × (candidate (authorize_context auth id r) db.injections ≡ some i)
      × Authorizes env auth id i
unfolding authorize_op authorize authorize_by check_injection
authorize_op-ok env op auth id r db n on h =
    authorize_by-ok env op auth id r (candidate (authorize_context auth id r) db.injections) n
      (rw on at h)

pub err-ne-ok : {A : Type 0} {e : XbusErrorCode} {a : A} → ¬ (◌≡◌ {A = Result A} (err e) (ok a))
err-ne-ok h = cc

true-ne-false : ¬ (◌≡◌ {A = Bool} true false)
true-ne-false h = cc

pub ack_of-ok :
    (env : Env) (auth : SessionAuthority) (input : AckInput) (o : Option Message) (db : Db)
    (r : AckResult)
    → (ack_of env auth input o db).1 ≡ ok r
    → (m : Message) × (o ≡ some m)
      × (m.recipient_session_id ≡ auth.session_id)
      × ((ack_received env auth input db).1 ≡ ok r)
      × (ack_of env auth input o db ≡ ack_received env auth input db)
unfolding ack_of
ack_of-ok env auth input none db r h = cc
ack_of-ok env auth input (some m) db r h =
    elim (Bool-cases (m.recipient_session_id == auth.session_id)) [
      | inl e ↦ (m, refl, ground arith, rw (e, ack_of) at h, rw (e, ack_of))
      | inr e ↦ absurd (err-ne-ok (rw (e, ack_of) at h))
    ]

pub ok-eq : {A : Type 0} {x y : A} → ◌≡◌ {A = Result A} (ok x) (ok y) → x ≡ y
ok-eq h = cc

pub settle_if-ok :
    (env : Env) (auth : SessionAuthority) (input : AckInput) (c : Result (Option ℕ)) (db : Db)
    (r : AckResult)
    → (settle_if env auth input c db).1 ≡ ok r
    → (n : Option ℕ) × (c ≡ ok n)
unfolding settle_if
settle_if-ok env auth input (ok n) db r h = (n, refl)
settle_if-ok env auth input (err e) db r h = cc

pub repeat_duplicate :
    (input : AckInput) (existing : Receipt) (db : Db) (r : AckResult)
    → (repeat input existing db).1 ≡ ok r
    → (r.duplicate ≡ true)
      × (repeat input existing db ≡ (db, ok r))
      × (same_ack_status existing.status input.status ≡ true)
unfolding repeat
repeat_duplicate input existing db r h =
    elim (Bool-cases (same_ack_status existing.status input.status)) [
      | inl e ↦ (
        cc (ok-eq (rw (e, repeat) at h)),
        rw (e, repeat) (ap (λ x. (db, ok x)) (ok-eq (rw (e, repeat) at h))),
        e,
      )
      | inr e ↦ absurd (err-ne-ok (rw (e, repeat) at h))
    ]

ack_by-first :
    (env : Env) (auth : SessionAuthority) (input : AckInput) (o : Option Receipt) (db : Db)
    (r : AckResult)
    → (ack_by env auth input o db).1 ≡ ok r
    → r.duplicate ≡ false
    → (n : Option ℕ) × (authorize_op env ack_op auth input.message_id input.injection_id db ≡ ok n)
unfolding ack_by
ack_by-first env auth input none db r h first =
    settle_if-ok env auth input
      (authorize_op env ack_op auth input.message_id input.injection_id db) db r h
ack_by-first env auth input (some existing) db r h first =
    absurd (true-ne-false (sym (repeat_duplicate input existing db r h).0 ∙ first))

-- Where receipts are required, an acknowledgement that succeeds and is no repeat was made by the
-- MCP component of the message's recipient, in its session's current epoch, on the ground of an
-- injection recorded for this message, this session and this epoch that has not expired.
pub ack-Authorizes :
    (env : Env) (auth : SessionAuthority) (input : AckInput) (db : Db) (r : AckResult)
    → env.require_receipt ≡ true
    → (ack env auth input db).1 ≡ ok r
    → r.duplicate ≡ false
    → (is_allowed auth.role Operation.ack ≡ true)
      × IsCurrent auth db
      × ((m : Message) × (message_row input.message_id db.messages ≡ some m)
          × (m.recipient_session_id ≡ auth.session_id))
      × ((i : Injection) × (candidate
              (authorize_context auth input.message_id input.injection_id)
              db.injections
            ≡ some i)
          × Authorizes env auth input.message_id i)
unfolding ack ack_message ack_received
ack-Authorizes env auth input db r on h first =
    let body = transaction (ack_message env auth input) in
    let (same, allowed, current) = authorized-ok auth Operation.ack body db r h in
    let inner = (transaction-ok (ack_message env auth input) db r (rw same at h)).0 in
    let (m, found, mine, received, step) =
      ack_of-ok env auth input (message_row input.message_id db.messages) db r inner in
    let (n, granted) =
      ack_by-first env auth input (ack_receipt input.message_id auth.session_id db.receipts) db r
        received first in
    (
      allowed,
      current,
      (m, found, mine),
      authorize_op-ok env ack_op auth input.message_id input.injection_id db n on granted,
    )
