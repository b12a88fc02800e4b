-- ===== src/Broker/Send/Replays.antt =====
-- src/broker/store.ts: a send under an idempotency key that is recorded already.
use xbus.Base.{
  ℕ, ◌≡◌, refl, sym, ap, ◌∙◌, ◌<◌, ◌⊎◌, inl, inr, Bool, true, false, not, ◌&&◌, [], ◌∷◌, ◌++◌,
  Option, none, some, arith, ◌==◌, ==_refl, if◌then◌else◌, Bool-cases, Option-cases, first_where,
  first_where-none, updated, first_where-updated, is_some, first_where-append, All, All-weaken, ◌+◌,
}
use xbus.Protocol.Errors.{Result, ok, err, recipient_session_expired, err-ne-ok}
use xbus.Protocol.States.{DeliveryState, is_terminal}
use xbus.Broker.Recipients.{Names, Target}
use xbus.Broker.Delivery.Sessions.{session_row, refresh_activity, refreshed, is_unexpired}
use xbus.Broker.Db.{Db, audit, Session, Message, Delivery, SessionAuthority, Env, transaction}
use xbus.Broker.Delivery.Reply.{has_expired, has_key_of, queued_row}
use xbus.Broker.Send.Fresh.{send-unused, send_new-tables, IsDelivered}
use xbus.Broker.Send.{
  SendInput, SendResult, result_of, replay, is_replayed, duplicate_send, state_of_message,
  send_message, send_by, send, message_of, insert_message, send_new,
}

replay_known :
    (dup : Message) (s : DeliveryState) (db : Db)
    → transaction (replay dup s) db ≡ (
      db,
      if not (is_replayed s) && has_expired dup.recipient_session_id db
          then err recipient_session_expired
          else ok (result_of dup s true),
    )
unfolding replay
replay_known dup s db =
    elim (Bool-cases (not (is_replayed s) && has_expired dup.recipient_session_id db)) [
      | inl e ↦ rw e refl
      | inr e ↦ rw e refl
    ]

known_send :
    (n : Names) (env : Env) (auth : SessionAuthority) (input : SendInput) (db : Db) (dup : Message)
    → duplicate_send auth.session_id input.idempotency_key db.messages ≡ some dup
    → let s = state_of_message dup.message_id db.deliveries in
      send n env auth input db ≡ (
        db,
        if not (is_replayed s) && has_expired dup.recipient_session_id db
            then err recipient_session_expired
            else ok (result_of dup s true),
      )
unfolding send send_message send_by
known_send n env auth input db dup h =
    rw h (replay_known dup (state_of_message dup.message_id db.deliveries) db)

-- The states of which a sender is not told once the recipient has expired: those that may still
-- change by src/protocol/states.ts, and cancelled.
abbrev pub IsUntold : DeliveryState → Type 0
IsUntold s = (is_terminal s ≡ false) ⊎ (s ≡ DeliveryState.cancelled)

-- What a send is told of a recorded message in a state.
abbrev pub IsTold : Message → DeliveryState → Result SendResult → Type 0
IsTold m s r =
    r
    ≡ ok (record {
      message_id = m.message_id;
      correlation_id = m.correlation_id;
      recipient_session_id = m.recipient_session_id;
      recipient_alias = m.recipient_alias;
      sequence = m.recipient_sequence;
      state = s;
      deduplicated = true;
    })

and_none : (b : Bool) → (b && false) ≡ false
and_none b = ground arith

is_replayed-IsUntold :
    (s : DeliveryState)
    → ((is_replayed s ≡ false) × IsUntold s) ⊎ ((is_replayed s ≡ true) × (¬ IsUntold s))
unfolding is_replayed is_terminal
is_replayed-IsUntold DeliveryState.queued = inl (refl, inl refl)
is_replayed-IsUntold DeliveryState.dispatching = inl (refl, inl refl)
is_replayed-IsUntold DeliveryState.transport_written = inl (refl, inl refl)
is_replayed-IsUntold DeliveryState.accepted = inl (refl, inl refl)
is_replayed-IsUntold DeliveryState.retry_wait = inl (refl, inl refl)
is_replayed-IsUntold DeliveryState.cancelled = inl (refl, inr refl)
is_replayed-IsUntold DeliveryState.completed = inr (refl, ground arith)
is_replayed-IsUntold DeliveryState.rejected = inr (refl, ground arith)
is_replayed-IsUntold DeliveryState.expired = inr (refl, ground arith)
is_replayed-IsUntold DeliveryState.dead_letter = inr (refl, ground arith)

-- A send under a key that the sender has used changes no table, the audit rows included. It is
-- refused if the recipient has expired and the present state of the recorded message's delivery is
-- not terminal or is cancelled; otherwise it returns the recorded message, marked as a duplicate, in
-- that state.
pub send_known :
    (n : Names) (env : Env) (auth : SessionAuthority) (input : SendInput) (db : Db) (dup : Message)
    → duplicate_send auth.session_id input.idempotency_key db.messages ≡ some dup
    → let s = state_of_message dup.message_id db.deliveries in
      let gone = has_expired dup.recipient_session_id db in
      let (after, answer) = send n env auth input db in
      (after ≡ db)
      × (((gone ≡ true) × IsUntold s × (answer ≡ err recipient_session_expired))
          ⊎ (((gone ≡ false) ⊎ (¬ IsUntold s)) × IsTold dup s answer))
send_known n env auth input db dup h =
    let out = known_send n env auth input db dup h in
    let s = state_of_message dup.message_id db.deliveries in
    elim (Bool-cases (has_expired dup.recipient_session_id db)) [
      | inr live ↦ (
        ap (λ r. r.0) out,
        inr (inl live, rw (live, and_none (not (is_replayed s))) at (ap (λ r. r.1) out)),
      )
      | inl gone ↦ elim (is_replayed-IsUntold s) [
        | inl (e, u) ↦ (ap (λ r. r.0) out, inl (gone, u, rw (gone, e) at (ap (λ r. r.1) out)))
        | inr (e, t) ↦ (ap (λ r. r.0) out, inr (inr t, rw (gone, e) at (ap (λ r. r.1) out)))
      ]
    ]

-- Messages and deliveries have ids that `IdGen` has given already.
abbrev pub HasOldIds : Db → Type 0
HasOldIds db = All (λ (d : Delivery). d.message_id < db.next_id) db.deliveries

-- The row that a query by key finds after the insertion.
inserted_found :
    (n : Names) (env : Env) (auth : SessionAuthority) (input : SendInput) (db : Db)
    (target : Target) (key : ℕ)
    → input.idempotency_key ≡ some key
    → duplicate_send auth.session_id (some key) db.messages ≡ none
    → let m = message_of n env auth input target db in
      duplicate_send auth.session_id (some key) (db.messages ++ (m ∷ [])) ≡ some m
unfolding duplicate_send message_of
inserted_found n env auth input db target key k h =
    first_where-append (has_key_of auth.session_id key) db.messages
      (message_of n env auth input target db) h (rw (k, ==_refl auth.session_id, ==_refl key) refl)

inserted_queued :
    (env : Env) (db : Db) (id sid : ℕ)
    → HasOldIds db
    → state_of_message db.next_id (db.deliveries ++ (queued_row env id db.next_id sid ∷ []))
      ≡ DeliveryState.queued
unfolding state_of_message queued_row
inserted_queued env db id sid h =
    let misses =
      All-weaken _ (λ (d : Delivery). (d.message_id == db.next_id) ≡ false) db.deliveries
        (λ d lt. ground arith) h in
    rw
      (first_where-append (λ (d : Delivery). d.message_id == db.next_id) db.deliveries
        (queued_row env id db.next_id sid) (first_where-none _ db.deliveries misses)
        (==_refl db.next_id))
      refl

abbrev expired_at_of : Option Session → Bool
expired_at_of none = false
expired_at_of (some s) = is_some s.expired_at

refreshed_expiry :
    (env : Env) (q : Session → Bool) (o : Option Session)
    → expired_at_of (updated q (refreshed env) o) ≡ expired_at_of o
refreshed_expiry env q none = refl
refreshed_expiry env q (some s) = elim (Bool-cases (q s)) [
  | inl on ↦ rw on refl
  | inr off ↦ rw off refl
]

has_expired-send_new :
    (n : Names) (env : Env) (auth : SessionAuthority) (input : SendInput) (target : Target)
    (sid : ℕ) (db : Db)
    → has_expired sid (send_new n env auth input target db).0 ≡ has_expired sid db
unfolding send_new refresh_activity insert_message audit has_expired session_row
has_expired-send_new n env auth input target sid db =
    rw
      (
        has_expired,
        session_row,
        first_where-updated (λ (s : Session). s.session_id == sid) (is_unexpired auth.session_id)
            (refreshed env) db.sessions (λ s. refl),
      )
      (refreshed_expiry env (is_unexpired auth.session_id)
        (first_where (λ (s : Session). s.session_id == sid) db.sessions))

-- What the second send is told, after the first one has gone through.
again_new :
    (n : Names) (env later : Env) (auth : SessionAuthority) (input again : SendInput) (db : Db)
    (target : Target) (key : ℕ)
    → input.idempotency_key ≡ some key
    → again.idempotency_key ≡ some key
    → HasOldIds db
    → IsDelivered n env auth input db target
    → let after = (send_new n env auth input target db).0 in
      send n later auth again after
      ≡ (after, ok (result_of (message_of n env auth input target db) DeliveryState.queued true))
unfolding message_of is_replayed
again_new n env later auth input again db target key k k' old (unused, found, live, free) =
    let after = (send_new n env auth input target db).0 in
    let m = message_of n env auth input target db in
    let (ms, ds, seqs) = send_new-tables n env auth input db target in
    let recorded : duplicate_send auth.session_id again.idempotency_key after.messages ≡ some m =
      rw (k', ms) (inserted_found n env auth input db target key k (rw k at unused)) in
    let queued : state_of_message m.message_id after.deliveries ≡ DeliveryState.queued =
      rw ds (inserted_queued env db (db.next_id + 4) target.session_id old) in
    let still : has_expired target.session_id after ≡ false =
      has_expired-send_new n env auth input target target.session_id db ∙ live in
    rw (queued, still) at (known_send n later auth again after m recorded)

known_result :
    (b : Bool) (dup : Message) (s : DeliveryState) (r : SendResult)
    → (if b then err recipient_session_expired else ok (result_of dup s true)) ≡ ok r
    → record r { deduplicated = true } ≡ r
known_result true dup s r h = absurd (err-ne-ok h)
known_result false dup s r h = let same : result_of dup s true ≡ r = cc in rw (sym same) refl

-- A send under a key that returns can be repeated: another send of the caller under the key, on the
-- very tables that the first one left, at whatever instant and whatever else it says, changes no
-- table and returns what the first one returned, marked as a duplicate. The messages of the
-- deliveries in the table have ids that were given before.
pub send_again :
    (n : Names) (env later : Env) (auth : SessionAuthority) (input again : SendInput) (db : Db)
    (key : ℕ) (r : SendResult)
    → HasOldIds db
    → input.idempotency_key ≡ some key
    → again.idempotency_key ≡ some key
    → (send n env auth input db).1 ≡ ok r
    → let after = (send n env auth input db).0 in
      send n later auth again after ≡ (after, ok (record r { deduplicated = true }))
unfolding send_new
send_again n env later auth input again db key r old k k' h =
    elim (Option-cases (duplicate_send auth.session_id input.idempotency_key db.messages)) [
      | inr (dup, e) ↦
          let out = known_send n env auth input db dup e in
          let out' = known_send n later auth again db dup (rw (k, sym k') at e) in
          let s = state_of_message dup.message_id db.deliveries in
          let refused = not (is_replayed s) && has_expired dup.recipient_session_id db in
          let answer : (if refused
                then err recipient_session_expired
                else ok (result_of dup s true))
              ≡ ok r =
            rw out at h in
          let told = known_result refused dup s r answer in
          rw out (out' ∙ ap (λ (x : Result SendResult). (db, x)) (answer ∙ ap ok (sym told)))
      | inl e ↦
          let (target, delivered, same) = send-unused n env auth input db r e h in
          let returned : ok
                (result_of (message_of n env auth input target db) DeliveryState.queued false)
              ≡ ok r =
            rw same at h in
          let told : result_of (message_of n env auth input target db) DeliveryState.queued false
              ≡ r =
            cc in
          rw (same, sym told)
            (again_new n env later auth input again db target key k k' old delivered)
    ]
