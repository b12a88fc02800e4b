-- ===== src/Broker/Reaper/Evolve.antt =====
-- The sweep of src/broker/reaper.ts and the moves of deliveries.
use xbus.Base.{
  ℕ, ◌+◌, ◌≡◌, refl, true, false, List, [], ◌∷◌, arith, ◌==◌, leb, count_where, update_where,
}
use xbus.Protocol.States.{DeliveryState, is_terminal}
use xbus.Broker.Db.{Db, Message, Delivery, Session, audit}
use xbus.Broker.Evolution.{
  Moves, one_move, sweeping, time_out, bury_written, bury_queued, bury_retry, expire_queued,
  expire_retry, expire_accepted, Later, moved, Evolves-refl, Evolves-trans, Evolves-update_where,
  Advances, Advances-trans, Advances-same, Advances-branch,
}
use xbus.Broker.Retry.{next_backoff_ms}
use xbus.Broker.Delivery.Checkpoint.{is_pending, is_pending_of, is_written}
use xbus.Broker.Delivery.Evolve.{and-left, and-right, written_of, pending_open}
use xbus.Broker.Reaper.AckTimeouts.{
  ReaperEnv, Tally, no_tally, requires_ack_of, is_awaiting_ack, exhaust, requeue, update_awaiting,
  release_leases_of, row_count, dead_letter_row, requeue_row, used_up, is_capped, reap_row,
  reap_rows, ack_due_rows, reap_ack_timeouts,
}
use xbus.Broker.Reaper.Expiry.{
  expire_before_injection, expire_row, expire_rows, ttl_due_rows, reap_acceptance_ttl,
  reclaim_leases, reap_old_schedule_runs, reap_stale_pending_names,
}
use xbus.Broker.Reaper.IdleSessions.{
  is_undelivered, is_undelivered_to, dead_letter_inactive, is_accepted, owes_reply,
  expire_unanswered, close_session, end_deliveries, release_tombstoned, is_unexpired, make_dormant,
  expire_session, expire_sessions, idle_sessions, reap_expired_sessions,
}
use xbus.Broker.Reaper.Sweep.{sweep}

awaiting-written :
    (id : ℕ) (ms : List Message) (d : Delivery)
    → is_awaiting_ack id ms d ≡ true
    → d.state ≡ DeliveryState.transport_written
unfolding is_awaiting_ack
awaiting-written id ms d h = written_of d.state (
    and-left (is_written d.state) (requires_ack_of d.message_id ms)
      (and-right (d.message_id == id) _ h))

written-open :
    (d : Delivery) → d.state ≡ DeliveryState.transport_written → is_terminal d.state ≡ false
unfolding is_terminal
written-open d e = rw e

update_awaiting-Advances :
    (id : ℕ) (f : Delivery → Delivery) (db : Db)
    → ((d : Delivery) → d.state ≡ DeliveryState.transport_written → Later sweeping d (f d))
    → Advances sweeping db (update_awaiting id f db)
unfolding update_awaiting
update_awaiting-Advances id f db h =
    Evolves-update_where (is_awaiting_ack id db.messages) f db.deliveries
      (λ d e. h d (awaiting-written id db.messages d e))

dead_letter_row-Advances :
    (env : ReaperEnv) (row : Delivery) (t : Tally) (db : Db)
    → Advances sweeping db (dead_letter_row env row t db).0
unfolding dead_letter_row audit
dead_letter_row-Advances env row t db =
    Advances-branch db (row_count row.message_id db == 0) _ _ (Evolves-refl db.deliveries) (
      update_awaiting-Advances row.message_id (exhaust env (row.attempt_ack_timeout + 1)) db
        (λ d e. moved d _ refl refl refl (rw e (one_move bury_written)) (written-open d e)))

requeue_row-Advances :
    (env : ReaperEnv) (row : Delivery) (t : Tally) (db : Db)
    → Advances sweeping db (requeue_row env row t db).0
unfolding requeue_row audit release_leases_of
requeue_row-Advances env row t db =
    let delay = next_backoff_ms row.attempt_ack_timeout env.backoff (env.rng t.drawn) in
    Advances-branch db (row_count row.message_id db == 0) _ _ (Evolves-refl db.deliveries) (
      update_awaiting-Advances row.message_id (requeue env (row.attempt_ack_timeout + 1) delay) db
        (λ d e. moved d _ refl refl refl (rw e (one_move time_out)) (written-open d e)))

reap_row-Advances :
    (env : ReaperEnv) (row : Delivery) (db : Db) (t : Tally)
    → Advances sweeping db (reap_row env row (db, t)).0
unfolding reap_row
reap_row-Advances env row db t =
    let t' = record t { per_session = used_up t.per_session row.recipient_session_id } in
    Advances-branch db (is_capped env (t.per_session row.recipient_session_id)) (db, t) _
      (Evolves-refl db.deliveries)
      (Advances-branch db (leb env.backoff.max_attempts (row.attempt_ack_timeout + 1))
        (dead_letter_row env row t' db) (requeue_row env row t' db)
        (dead_letter_row-Advances env row t' db) (requeue_row-Advances env row t' db))

reap_rows-Advances :
    (env : ReaperEnv) (rows : List Delivery) (s : Db × Tally)
    → Advances sweeping s.0 (reap_rows env rows s).0
unfolding reap_rows
reap_rows-Advances env [] s = Evolves-refl s.0.deliveries
reap_rows-Advances env (row ∷ rows) s =
    Advances-trans s.0 (reap_row env row s).0 (reap_rows env rows (reap_row env row s)).0
      (reap_row-Advances env row s.0 s.1) (reap_rows-Advances env rows (reap_row env row s))

expires_pending : (s : DeliveryState) → is_pending s ≡ true → Moves sweeping s DeliveryState.expired
unfolding is_pending
expires_pending DeliveryState.queued h = one_move expire_queued
expires_pending DeliveryState.retry_wait h = one_move expire_retry
expires_pending _ h = cc

expires_accepted :
    (s : DeliveryState) → is_accepted s ≡ true → Moves sweeping s DeliveryState.expired
unfolding is_accepted
expires_accepted DeliveryState.accepted h = one_move expire_accepted
expires_accepted _ h = cc

expire_row-Advances :
    (env : ReaperEnv) (row : Delivery) (db : Db) (n : ℕ)
    → Advances sweeping db (expire_row env row (db, n)).0
unfolding expire_row audit
expire_row-Advances env row db n =
    Advances-branch db (count_where (is_pending_of row.message_id) db.deliveries == 0) _ _
      (Evolves-refl db.deliveries)
      (Evolves-update_where (is_pending_of row.message_id) (expire_before_injection env.now)
        db.deliveries
        (λ d e.
          let p = and-right (d.message_id == row.message_id) (is_pending d.state) e in
          moved d (expire_before_injection env.now d) refl refl refl (expires_pending d.state p)
            (pending_open d.state p)))

expire_rows-Advances :
    (env : ReaperEnv) (rows : List Delivery) (s : Db × ℕ)
    → Advances sweeping s.0 (expire_rows env rows s).0
unfolding expire_rows
expire_rows-Advances env [] s = Evolves-refl s.0.deliveries
expire_rows-Advances env (row ∷ rows) s =
    Advances-trans s.0 (expire_row env row s).0 (expire_rows env rows (expire_row env row s)).0
      (expire_row-Advances env row s.0 s.1) (expire_rows-Advances env rows (expire_row env row s))

undelivered-dead :
    (s : DeliveryState)
    → is_undelivered s ≡ true
    → Moves sweeping s DeliveryState.dead_letter × (is_terminal s ≡ false)
unfolding is_undelivered is_terminal
undelivered-dead DeliveryState.queued h = (one_move bury_queued, refl)
undelivered-dead DeliveryState.retry_wait h = (one_move bury_retry, refl)
undelivered-dead DeliveryState.transport_written h = (one_move bury_written, refl)
undelivered-dead _ h = cc

accepted-open : (s : DeliveryState) → is_accepted s ≡ true → is_terminal s ≡ false
unfolding is_accepted is_terminal
accepted-open s h = ground arith

end_deliveries-Advances : (now sid : ℕ) (db : Db) → Advances sweeping db (end_deliveries now sid db)
unfolding end_deliveries
end_deliveries-Advances now sid db =
    let between = update_where (is_undelivered_to sid) (dead_letter_inactive now) db.deliveries in
    Evolves-trans
      (Evolves-update_where (is_undelivered_to sid) (dead_letter_inactive now) db.deliveries (λ d e.
        let (p, o) =
          undelivered-dead d.state
            (and-right (d.recipient_session_id == sid) (is_undelivered d.state) e) in
        moved d (dead_letter_inactive now d) refl refl refl p o))
      (Evolves-update_where (owes_reply sid db.messages) (expire_unanswered now) between (λ d e.
        let a = and-left (is_accepted d.state) _ (and-right (d.recipient_session_id == sid) _ e) in
        moved d (expire_unanswered now d) refl refl refl (expires_accepted d.state a)
          (accepted-open d.state a)))

expire_session-Advances :
    (env : ReaperEnv) (sid : ℕ) (db : Db) (n : ℕ)
    → Advances sweeping db (expire_session env sid (db, n)).0
unfolding expire_session close_session release_tombstoned audit
expire_session-Advances env sid db n =
    let dormant = record db {
      sessions = update_where (is_unexpired sid) (make_dormant env.now) db.sessions;
    } in
    Advances-branch db (count_where (is_unexpired sid) db.sessions == 0) _ _
      (Evolves-refl db.deliveries)
      (end_deliveries-Advances env.now sid (close_session env.now sid dormant))

expire_sessions-Advances :
    (env : ReaperEnv) (xs : List Session) (s : Db × ℕ)
    → Advances sweeping s.0 (expire_sessions env xs s).0
unfolding expire_sessions
expire_sessions-Advances env [] s = Evolves-refl s.0.deliveries
expire_sessions-Advances env (x ∷ xs) s =
    let next = expire_session env x.session_id s in
    Advances-trans s.0 next.0 (expire_sessions env xs next).0
      (expire_session-Advances env x.session_id s.0 s.1) (expire_sessions-Advances env xs next)

reclaim_leases-same :
    (env : ReaperEnv) (db : Db) → (reclaim_leases env db).0.deliveries ≡ db.deliveries
unfolding reclaim_leases audit
reclaim_leases-same env db = ground arith

reap_old_schedule_runs-same :
    (env : ReaperEnv) (db : Db) → (reap_old_schedule_runs env db).0.deliveries ≡ db.deliveries
unfolding reap_old_schedule_runs audit
reap_old_schedule_runs-same env db = ground arith

reap_stale_pending_names-same :
    (env : ReaperEnv) (db : Db) → (reap_stale_pending_names env db).deliveries ≡ db.deliveries
unfolding reap_stale_pending_names audit
reap_stale_pending_names-same env db = ground arith

-- A sweep makes only the moves of a sweeping caller and changes no delivery that is
-- in a terminal state, whichever passes find work and however they interfere.
pub sweep-Advances : (env : ReaperEnv) (db : Db) → Advances sweeping db (sweep env db).0
unfolding sweep reap_ack_timeouts reap_acceptance_ttl reap_expired_sessions
sweep-Advances env db =
    let db1 = (reap_ack_timeouts env db).0 in
    let db2 = (reap_acceptance_ttl env db1).0 in
    let db3 = (reclaim_leases env db2).0 in
    let db4 = (reap_expired_sessions env db3).0 in
    let db5 = (reap_old_schedule_runs env db4).0 in
    let db6 = reap_stale_pending_names env db5 in
    Advances-trans db db1 db6 (reap_rows-Advances env (ack_due_rows env db) (db, no_tally)) (
      Advances-trans db1 db2 db6 (expire_rows-Advances env (ttl_due_rows env db1) (db1, 0)) (
        Advances-trans db2 db3 db6 (Advances-same db2 db3 (reclaim_leases-same env db2)) (
          Advances-trans db3 db4 db6 (expire_sessions-Advances env (idle_sessions env db3) (db3, 0))
            (Advances-trans db4 db5 db6
              (Advances-same db4 db5 (reap_old_schedule_runs-same env db4))
              (Advances-same db5 db6 (reap_stale_pending_names-same env db5))))))
