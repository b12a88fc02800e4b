-- ===== src/Broker/Runs.antt =====
-- The operations of src/broker on deliveries in any order: a run is a sequence of calls by any
-- callers at any instants, whether they return or throw. The administrator's redrive and discard of
-- dead letters are no part of it, since they leave a terminal state.
use xbus.Base.{ℕ, List, [], ◌∷◌}
use xbus.Broker.Db.{Db, CheckpointId, SessionAuthority, Env}
use xbus.Broker.Evolution.{
  Caller, delivering, acknowledging, replying, cancelling, sweeping, bystanding, anyone, Advances,
  Advances-trans, Evolves-refl, Evolves-by_one,
}
use xbus.Broker.Delivery.Checkpoint.{checkpoint_pull, process_next}
use xbus.Broker.Delivery.Mark.{mark_injected}
use xbus.Broker.Delivery.Ack.{AckInput, ack}
use xbus.Broker.Delivery.Reply.{ReplyInput, reply}
use xbus.Broker.Delivery.Redeliver.{redeliver}
use xbus.Broker.Delivery.Evolve.{checkpoint_pull-Advances, process_next-Advances}
use xbus.Broker.Delivery.Moves.{ack-Advances, reply-Advances}
use xbus.Broker.Delivery.Remark.{mark_injected-Advances, redeliver-Advances}
use xbus.Broker.Cancellation.{cancel, cancel-Advances}
use xbus.Broker.Recipients.{Names}
use xbus.Broker.Send.{SendInput, send}
use xbus.Broker.Send.Evolve.{send-Advances}
use xbus.Broker.Reaper.AckTimeouts.{ReaperEnv}
use xbus.Broker.Reaper.Sweep.{sweep}
use xbus.Broker.Reaper.Evolve.{sweep-Advances}

pub data Call : Type 0 where
  pull : Env → SessionAuthority → CheckpointId → ℕ → Call
  step : Env → SessionAuthority → CheckpointId → Call
  mark : Env → SessionAuthority → List ℕ → Call
  acknowledge : Env → SessionAuthority → AckInput → Call
  respond : Env → SessionAuthority → ReplyInput → Call
  redeliver_to : Env → SessionAuthority → ℕ → Call
  cancel_at : ℕ → ℕ → Call
  reap : ReaperEnv → Call
  submit : Names → Env → SessionAuthority → SendInput → Call

-- The tables that a call leaves, by the operation it is of.
unfoldable pub run_call : Call → Db → Db
run_call (pull env auth cp limit) db = (checkpoint_pull env auth cp limit db).0
run_call (step env auth cp) db = (process_next env auth cp db).0
run_call (mark env auth ids) db = (mark_injected env auth ids db).0
run_call (acknowledge env auth input) db = (ack env auth input db).0
run_call (respond env auth input) db = (reply env auth input db).0
run_call (redeliver_to env auth id) db = (redeliver env auth id db).0
run_call (cancel_at now id) db = (cancel 1 now id db).0
run_call (reap env) db = (sweep env db).0
run_call (submit n env auth input) db = (send n env auth input db).0

unfoldable pub run : List Call → Db → Db
run [] db = db
run (c ∷ cs) db = run cs (run_call c db)

-- Who changes deliveries by a call.
abbrev pub caller : Call → Caller
caller (pull env auth cp limit) = delivering
caller (step env auth cp) = delivering
caller (mark env auth ids) = delivering
caller (acknowledge env auth input) = acknowledging
caller (respond env auth input) = replying
caller (redeliver_to env auth id) = bystanding
caller (cancel_at now id) = cancelling
caller (reap env) = sweeping
caller (submit n env auth input) = bystanding

run_call-Advances : (c : Call) (db : Db) → Advances (caller c) db (run_call c db)
unfolding run_call
run_call-Advances (pull env auth cp limit) db = checkpoint_pull-Advances env auth cp limit db
run_call-Advances (step env auth cp) db = process_next-Advances env auth cp db
run_call-Advances (mark env auth ids) db = mark_injected-Advances env auth ids db
run_call-Advances (acknowledge env auth input) db = ack-Advances env auth input db
run_call-Advances (respond env auth input) db = reply-Advances env auth input db
run_call-Advances (redeliver_to env auth id) db = redeliver-Advances env auth id db
run_call-Advances (cancel_at now id) db = cancel-Advances 1 now id db
run_call-Advances (reap env) db = sweep-Advances env db
run_call-Advances (submit n env auth input) db = send-Advances n env auth input db

-- Each call of a run changes the tables that the calls in front of it left as its caller does.
abbrev pub Traced : List Call → Db → Type 0
Traced [] db = Unit {0}
Traced (c ∷ cs) db = Advances (caller c) db (run_call c db) × Traced cs (run_call c db)

-- Whatever calls are made, in whatever order, and whether they return or throw: each call keeps every
-- delivery in its place and under its ids, leaves it as it was if it was in a terminal state, and
-- changes its state only by a chain of the direct moves of its caller. Pulls, manual steps and marks
-- move queued and retry_wait to transport_written, and that to completed; acknowledgements move
-- transport_written to accepted or rejected; replies move transport_written and accepted to completed;
-- cancels move queued and retry_wait to cancelled; a sweep moves transport_written to retry_wait or
-- dead_letter, queued and retry_wait to dead_letter or expired, and accepted to expired; sends and
-- redeliveries move none. The run as a whole keeps every delivery in its place and under its ids, and
-- as it was if it was in a terminal state, and moves it by chains of these moves only.
pub run-Traced : (cs : List Call) (db : Db) → Traced cs db × Advances anyone db (run cs db)
unfolding run
run-Traced [] db = (tt, Evolves-refl db.deliveries)
run-Traced (c ∷ cs) db =
    let first = run_call-Advances c db in
    let (rest, whole) = run-Traced cs (run_call c db) in
    (
      (first, rest),
      Advances-trans db (run_call c db) (run cs (run_call c db)) (Evolves-by_one first) whole,
    )
