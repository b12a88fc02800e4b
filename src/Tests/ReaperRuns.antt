-- ===== src/Tests/ReaperRuns.antt =====
-- Runs of src/broker/reaper.ts, src/broker/deadletter.ts and src/broker/cancellation.ts.
use xbus.Base.{
  List, [], ◌∷◌, ℕ, ◌≡◌, refl, ◌⊎◌, true, false, some, String, All, count_where, first_where,
}
use xbus.Protocol.States.{DeliveryState}
use xbus.Broker.Db.{Message, Delivery, Session}
use xbus.Broker.Evolution.{Advances, anyone}
use xbus.Broker.Delivery.Sessions.{session_row}
use xbus.Broker.Delivery.Checkpoint.{message_row}
use xbus.Broker.Reaper.AckTimeouts.{reap_ack_timeouts, requires_ack_of}
use xbus.Broker.Reaper.IdleSessions.{reap_expired_sessions, idle_sessions, operator_session_id}
use xbus.Broker.Reaper.Spared.{delivery_row, reap_ack_timeouts_spares}
use xbus.Broker.Reaper.Tombstones.{IsSettled, reap_expired_sessions-IsSettled}
use xbus.Broker.Reaper.Operator.{reap_expired_sessions_operator}
use xbus.Broker.DeadLetter.{
  Validation, valid, redrive, redrive_message, redrive_row, redrive_valid, was_injected, discard,
  is_refused,
}
use xbus.Broker.DeadLetter.Discarded.{discard-redrive}
use xbus.Broker.DeadLetter.Redriven.{IsFresh, redrive-IsFresh}
use xbus.Broker.Cancellation.{CancelResult, cancel, Prevented, Kept, cancel_cases}
use xbus.Broker.Runs.{Call, Traced, run, run-Traced}
use xbus.Tests.Data.{
  env, later, hook_auth, mcp_auth, checkpoint, acceptance, answer, reaper, overdue_db, idle_db,
  dead_db, queued_db,
}

reap_ack_timeouts_spares_example :
    delivery_row 11 (reap_ack_timeouts reaper overdue_db).0.deliveries
    ≡ delivery_row 11 overdue_db.deliveries
unfolding requires_ack_of message_row first_where
reap_ack_timeouts_spares_example = reap_ack_timeouts_spares reaper 11 overdue_db refl

reap_expired_sessions-IsSettled_example :
    All
      (λ (s : Session).
        All
          (λ (d : Delivery).
            IsSettled s.session_id (reap_expired_sessions reaper idle_db).0.messages d)
          (reap_expired_sessions reaper idle_db).0.deliveries)
      (idle_sessions reaper idle_db)
reap_expired_sessions-IsSettled_example = reap_expired_sessions-IsSettled reaper idle_db

reap_expired_sessions_operator_example :
    session_row operator_session_id (reap_expired_sessions reaper idle_db).0
    ≡ session_row operator_session_id idle_db
reap_expired_sessions_operator_example = reap_expired_sessions_operator reaper idle_db

abbrev pub accept_anyone : ℕ → String → Validation
accept_anyone sid name = valid

abbrev pub as_is : String → String
as_is s = s

redrive-IsFresh_example :
    ((m : Message) × (message_row 10 dead_db.messages ≡ some m)
      × (accept_anyone m.recipient_session_id (as_is m.sender_alias) ≡ valid))
    × (false ≡ was_injected 10 dead_db)
    × ((old : Delivery) × (delivery_row 10 dead_db.deliveries ≡ some old)
        × (old.state ≡ DeliveryState.dead_letter)
        × ((d : Delivery) × (delivery_row 10
                (redrive accept_anyone as_is 5000 10 dead_db).0.deliveries
              ≡ some d)
            × IsFresh 100 old d))
unfolding redrive message_row first_where redrive_message redrive_row redrive_valid was_injected
    count_where
redrive-IsFresh_example = redrive-IsFresh accept_anyone as_is 5000 10 100 false dead_db refl

discard-redrive_example :
    ((redrive accept_anyone as_is 6000 10 (discard 5000 10 dead_db).0).0
      ≡ (discard 5000 10 dead_db).0)
    × (is_refused (redrive accept_anyone as_is 6000 10 (discard 5000 10 dead_db).0).1 ≡ true)
discard-redrive_example = discard-redrive accept_anyone as_is 5000 6000 10 dead_db

cancel_cases_example :
    (r : CancelResult) × ((cancel 1 5000 10 queued_db).1 ≡ some r)
    × (Prevented 10 queued_db (cancel 1 5000 10 queued_db).0 r
        ⊎ Kept 10 queued_db (cancel 1 5000 10 queued_db).0 r)
cancel_cases_example = cancel_cases 0 5000 10 queued_db

-- A pull, an acknowledgement, a cancel, a sweep and a reply.
abbrev calls : List Call
calls =
    Call.pull env hook_auth checkpoint 10
    ∷ Call.acknowledge env mcp_auth acceptance
    ∷ Call.cancel_at 5000 11
    ∷ Call.reap reaper
    ∷ Call.respond later mcp_auth answer
    ∷ []

run-Traced_example : Traced calls queued_db × Advances anyone queued_db (run calls queued_db)
run-Traced_example = run-Traced calls queued_db
