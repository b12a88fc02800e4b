-- ===== src/Broker/Reaper/Sweep.antt =====
-- `sweep` of src/broker/reaper.ts.
use xbus.Base.{ℕ}
use xbus.Broker.Db.{Db}
use xbus.Broker.Reaper.AckTimeouts.{ReaperEnv, reap_ack_timeouts}
use xbus.Broker.Reaper.Expiry.{
  reap_acceptance_ttl, reclaim_leases, reap_old_schedule_runs, reap_stale_pending_names,
}
use xbus.Broker.Reaper.IdleSessions.{reap_expired_sessions}

pub record SweepResult : Type 0 where
  pub ack_timed_out : ℕ
  pub dead_lettered : ℕ
  pub expired : ℕ
  pub leases_reclaimed : ℕ
  pub sessions_expired : ℕ
  pub schedule_runs_pruned : ℕ

-- The passes in the order of the object literal's fields. None of them throws.
unfoldable pub sweep : ReaperEnv → Db → Db × SweepResult
sweep env db =
    let (db1, t) = reap_ack_timeouts env db in
    let (db2, expired) = reap_acceptance_ttl env db1 in
    let (db3, reclaimed) = reclaim_leases env db2 in
    let (db4, idle) = reap_expired_sessions env db3 in
    let (db5, pruned) = reap_old_schedule_runs env db4 in
    (
      reap_stale_pending_names env db5,
      record {
        ack_timed_out = t.ack_timed_out;
        dead_lettered = t.dead_lettered;
        expired = expired;
        leases_reclaimed = reclaimed;
        sessions_expired = idle;
        schedule_runs_pruned = pruned;
      },
    )
