-- ===== src/Broker/Reaper/Expiry.antt =====
-- `reapAcceptanceTtl`, `reclaimLeases`, `reapOldScheduleRuns` and `reapStalePendingNames` of
-- src/broker/reaper.ts.
use xbus.Base.{
  ℕ, ◌+◌, Bool, true, false, not, ◌&&◌, List, [], ◌∷◌, Option, none, some, ◌==◌, leb, ltb,
  if◌then◌else◌, set_and_le, update_where, count_where, select_where, order_by,
}
use xbus.Protocol.States.{DeliveryState}
use xbus.Broker.Db.{
  Db, Message, Delivery, Session, expired_before_injection, Lease, ScheduleRun, RunState, NameState,
  unnamed, pending, sent, skipped, run_failed, audit, AuditType, leases_reclaimed,
  schedule_runs_pruned, pending_name_reservation_lapsed,
}
use xbus.Broker.Delivery.Checkpoint.{is_pending, is_pending_of, message_row}
use xbus.Broker.Reaper.AckTimeouts.{ReaperEnv, is_held, expire_lease}

abbrev pub ttl_passed : ℕ → Option Message → Bool
ttl_passed now none = false
ttl_passed now (some m) = set_and_le m.expires_at now

unfoldable pub is_ttl_due : ℕ → List Message → Delivery → Bool
unfolding is_pending message_row
is_ttl_due now ms d = is_pending d.state && ttl_passed now (message_row d.message_id ms)

abbrev pub expire_before_injection : ℕ → Delivery → Delivery
expire_before_injection now d = record d {
  state = DeliveryState.expired;
  failure_category = some expired_before_injection;
  updated_at = now;
}

unfoldable pub expire_row : ReaperEnv → Delivery → Db × ℕ → Db × ℕ
unfolding count_where update_where is_pending audit
expire_row env row (db, n) =
    if count_where (is_pending_of row.message_id) db.deliveries == 0 then (db, n) else (
      audit AuditType.expired_before_injection (some row.message_id) (record db {
        deliveries =
            update_where (is_pending_of row.message_id) (expire_before_injection env.now)
              db.deliveries;
      }),
      n + 1,
    )

unfoldable pub expire_rows : ReaperEnv → List Delivery → Db × ℕ → Db × ℕ
expire_rows env [] s = s
expire_rows env (row ∷ rows) s = expire_rows env rows (expire_row env row s)

unfoldable pub ttl_due_rows : ReaperEnv → Db → List Delivery
unfolding order_by select_where is_ttl_due
ttl_due_rows env db =
    order_by (λ d. d.updated_at) (select_where (is_ttl_due env.now db.messages) db.deliveries)

-- A pending message past its acceptance deadline expires: it never reached a checkpoint.
unfoldable pub reap_acceptance_ttl : ReaperEnv → Db → Db × ℕ
reap_acceptance_ttl env db = expire_rows env (ttl_due_rows env db) (db, 0)

abbrev pub is_lapsed : ℕ → Lease → Bool
is_lapsed now l = is_held l.state && leb l.expires_at now

unfoldable pub reclaim_leases : ReaperEnv → Db → Db × ℕ
unfolding count_where update_where audit
reclaim_leases env db =
    let n = count_where (is_lapsed env.now) db.delivery_leases in
    if n == 0 then (db, 0) else (
      audit leases_reclaimed none (record db {
        delivery_leases =
            update_where (is_lapsed env.now) (expire_lease env.now) db.delivery_leases;
      }),
      n,
    )

abbrev pub is_prunable_state : RunState → Bool
is_prunable_state sent = true
is_prunable_state skipped = true
is_prunable_state run_failed = true
is_prunable_state _ = false

-- `scheduled_for < now - retention`, with the retention moved to the other side.
abbrev pub is_prunable : ReaperEnv → ScheduleRun → Bool
is_prunable env r =
    is_prunable_state r.state && ltb (r.scheduled_for + env.schedule_run_retention_ms) env.now

unfoldable pub reap_old_schedule_runs : ReaperEnv → Db → Db × ℕ
unfolding count_where select_where audit
reap_old_schedule_runs env db =
    let n = count_where (is_prunable env) db.schedule_runs in
    if env.schedule_run_retention_ms == 0
    then (db, 0)
    else (if n == 0 then (db, 0) else (
      audit schedule_runs_pruned none (record db {
        schedule_runs = select_where (λ r. not (is_prunable env r)) db.schedule_runs;
      }),
      n,
    ))

abbrev pub is_pending_name : NameState → Bool
is_pending_name pending = true
is_pending_name _ = false

abbrev pub has_stale_name : ℕ → Session → Bool
has_stale_name now s =
    is_pending_name s.session_name_state && set_and_le s.pending_name_expires_at now

abbrev pub unname : ℕ → Session → Session
unname now s = record s {
  session_name_state = unnamed;
  session_name = none;
  normalized_session_name = none;
  pending_name_expires_at = none;
  updated_at = now;
}

unfoldable pub reap_stale_pending_names : ReaperEnv → Db → Db
unfolding count_where update_where audit
reap_stale_pending_names env db =
    if count_where (has_stale_name env.now) db.sessions == 0
    then db
    else audit pending_name_reservation_lapsed none (record db {
      sessions = update_where (has_stale_name env.now) (unname env.now) db.sessions;
    })
