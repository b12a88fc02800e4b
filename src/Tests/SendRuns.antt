-- ===== src/Tests/SendRuns.antt =====
-- Runs of `send` of src/broker/store.ts on small tables.
use text.Mathlib.Text.{◌==◌ as str_eq}
use xbus.Base.{◌≡◌, ◌⊎◌, refl, true, false, [], ◌∷◌, ◌++◌, none, some, arith, if◌then◌else◌}
use xbus.Protocol.Errors.{ok, err, recipient_session_expired}
use xbus.Protocol.States.{DeliveryState}
use xbus.Broker.Db.{Db, Message, Delivery, SessionAuthority, request, Alias}
use xbus.Broker.Delivery.Sessions.{session_row}
use xbus.Broker.Recipients.{Names, Target, resolve_recipient}
use xbus.Broker.Delivery.Reply.{has_expired, next_sequence_of, reply}
use xbus.Broker.Send.{
  SendInput, SendResult, send, send_message, duplicate_send, state_of_message, message_of, send_by,
  send_to, is_blocked_by, send_new,
}
use xbus.Broker.Send.Fresh.{send-IsDelivered}
use xbus.Broker.Send.Added.{IsLive, IsFree, IsNewMessage, IsNewDelivery}
use xbus.Broker.Send.Replays.{IsUntold, IsTold, send_known, send_again}
use xbus.Broker.Sequences.{IsSequenced}
use xbus.Broker.Send.Sequences.{send-IsSequenced}
use xbus.Broker.Delivery.Numbered.{reply-IsSequenced}
use xbus.Tests.Data.{
  env, later, mcp_auth, answer, written_db, queued_db, session, message, delivery,
}

abbrev names : Names
names = record {
  lower = λ s. if str_eq s "Helper" then "helper" else s;
  trim = λ s. s;
  session_of = λ s. 7;
  automatic_ci = λ id. "session-0";
}

abbrev helper_alias : Alias
helper_alias = record {
  alias_id = 1;
  alias = "Helper";
  alias_ci = "helper";
  is_global = true;
  session_id = 7;
  is_active = true;
  retired_at = none;
}

abbrev asker : SessionAuthority
asker = record mcp_auth { session_id = 3 }

-- The cursor of session 7 is behind its two messages.
abbrev alias_db : Db
alias_db = record queued_db {
  aliases = helper_alias ∷ [];
  recipient_sequences = record { recipient_session_id = 7; next_sequence = 12 } ∷ [];
}

abbrev input : SendInput
input = record {
  to = "Helper";
  text = "please";
  kind = request;
  requires_ack = true;
  requires_reply = false;
  idempotency_key = some 4;
  ttl_seconds = some 60;
}

resolves :
    resolve_recipient names "Helper" alias_db ≡ ok (record { session_id = 7; alias = "Helper" })
unfolding resolve_recipient
resolves = refl

abbrev result : SendResult
result = record {
  message_id = 100;
  correlation_id = 100;
  recipient_session_id = 7;
  recipient_alias = "Helper";
  sequence = 12;
  state = DeliveryState.queued;
  deduplicated = false;
}

sends : (send names env asker input alias_db).1 ≡ ok result
unfolding send send_message send_by send_to resolve_recipient is_blocked_by send_new message_of
    next_sequence_of
sends = refl

send-IsDelivered_example :
    (duplicate_send 3 (some 4) alias_db.messages ≡ none)
    × ((target : Target) × (resolve_recipient names "Helper" alias_db ≡ ok target)
        × IsLive (session_row target.session_id alias_db)
        × IsFree names asker target alias_db
        × ((m : Message) × ((d : Delivery) × let after = (send names env asker input alias_db).0 in
                (after.messages ≡ alias_db.messages ++ (m ∷ []))
                × (after.deliveries ≡ alias_db.deliveries ++ (d ∷ []))
                × IsNewMessage env asker input target alias_db m
                × IsNewDelivery m d
                × (result.message_id ≡ m.message_id)
                × (result.sequence ≡ m.recipient_sequence)
                × (result.recipient_session_id ≡ target.session_id)
                × (result.state ≡ d.state))))
unfolding send send_message send_by send_to resolve_recipient is_blocked_by send_new message_of
    next_sequence_of
send-IsDelivered_example = send-IsDelivered names env asker input alias_db result refl refl

send_again_example :
    let after = (send names env asker input alias_db).0 in
    send names later asker (record input { text = "again" }) after
    ≡ (after, ok (record result { deduplicated = true }))
unfolding send send_message send_by send_to resolve_recipient is_blocked_by send_new message_of
    next_sequence_of
send_again_example =
    send_again names env later asker input (record input { text = "again" }) alias_db 4 result
      (omega arith, (omega arith, tt)) refl refl refl

-- Message 10 was sent under the key 4 and cancelled; its recipient has expired since.
abbrev cancelled_db : Db
cancelled_db = record alias_db {
  sessions = record (session 7) { expired_at = some 4000 } ∷ session 3 ∷ [];
  messages = record (message 10) { idempotency_key = some 4 } ∷ [];
  deliveries = delivery 10 DeliveryState.cancelled ∷ [];
}

send_known_example :
    let (after, answer) = send names env asker input cancelled_db in
    (after ≡ cancelled_db)
    × (((true ≡ true) × IsUntold DeliveryState.cancelled × (answer ≡ err recipient_session_expired))
        ⊎ (((true ≡ false) ⊎ (¬ IsUntold DeliveryState.cancelled))
            × IsTold
                (record (message 10) { idempotency_key = some 4 })
                DeliveryState.cancelled
                answer))
unfolding duplicate_send state_of_message has_expired session_row
send_known_example =
    send_known names env asker input cancelled_db (record (message 10) { idempotency_key = some 4 })
      refl

send-IsSequenced_example :
    let after = (send names env asker input alias_db).0 in
    IsSequenced after.recipient_sequences after.messages
unfolding next_sequence_of
send-IsSequenced_example =
    send-IsSequenced names env asker input alias_db
      ((omega arith, (omega arith, tt)), ((λ (same, number). ground arith, tt), (tt, tt)))

abbrev numbered_db : Db
numbered_db = record written_db {
  recipient_sequences = record { recipient_session_id = 7; next_sequence = 12 } ∷ [];
}

reply-IsSequenced_example :
    let after = (reply env mcp_auth answer numbered_db).0 in
    IsSequenced after.recipient_sequences after.messages
unfolding next_sequence_of
reply-IsSequenced_example =
    reply-IsSequenced env mcp_auth answer numbered_db
      ((omega arith, (omega arith, tt)), ((λ (same, number). ground arith, tt), (tt, tt)))
