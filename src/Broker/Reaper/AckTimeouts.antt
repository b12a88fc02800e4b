-- ===== src/Broker/Reaper/AckTimeouts.antt =====
-- `reapAckTimeouts` of src/broker/reaper.ts.
use xbus.Base.{
  ℕ, suc, ◌+◌, Bool, true, false, not, ◌&&◌, List, [], ◌∷◌, Option, none, some, ◌==◌, leb,
  if◌then◌else◌, set_and_le, update_where, count_where, select_where, order_by,
}
use xbus.Protocol.States.{DeliveryState}
use xbus.Broker.Db.{
  Db, Message, Delivery, ack_timeout, ack_timeout_exhausted, Lease, LeaseState, lease_held,
  lease_expired, audit, ack_timeout_dead_letter, ack_timeout_requeue,
}
use xbus.Broker.Retry.{BackoffConfig, Fraction, next_backoff_ms}
use xbus.Broker.Delivery.Checkpoint.{is_written, message_row}

-- The instant of a sweep, which stands still within it, and the reaper's options. `rng n` is the
-- random source's nth value in the sweep.
pub record ReaperEnv : Type 0 where
  pub now : ℕ
  pub backoff : BackoffConfig
  pub per_session_cap : ℕ
  pub schedule_run_retention_ms : ℕ
  pub rng : ℕ → Fraction

-- The loop's variables: the map of the rows used up per session, the values drawn, the counts.
pub record Tally : Type 0 where
  pub per_session : ℕ → ℕ
  pub drawn : ℕ
  pub ack_timed_out : ℕ
  pub dead_lettered : ℕ

abbrev pub no_tally : Tally
no_tally = record { per_session = λ _. 0; drawn = 0; ack_timed_out = 0; dead_lettered = 0 }

abbrev pub message_requires_ack : Option Message → Bool
message_requires_ack none = false
message_requires_ack (some m) = m.requires_ack

-- The subquery on `messages` of the query and of each guarded update.
unfoldable pub requires_ack_of : ℕ → List Message → Bool
unfolding message_row
requires_ack_of id ms = message_requires_ack (message_row id ms)

unfoldable pub is_ack_due : ℕ → List Message → Delivery → Bool
unfolding is_written requires_ack_of
is_ack_due now ms d =
    is_written d.state && (requires_ack_of d.message_id ms && set_and_le d.lease_expires_at now)

unfoldable pub ack_due_rows : ReaperEnv → Db → List Delivery
ack_due_rows env db =
    order_by (λ d. d.updated_at) (select_where (is_ack_due env.now db.messages) db.deliveries)

-- `message_id=? AND state='transport_written'` with the guard on `requires_ack`.
unfoldable pub is_awaiting_ack : ℕ → List Message → Delivery → Bool
unfolding is_written requires_ack_of
is_awaiting_ack id ms d =
    d.message_id == id && (is_written d.state && requires_ack_of d.message_id ms)

abbrev pub exhaust : ReaperEnv → ℕ → Delivery → Delivery
exhaust env n d = record d {
  state = DeliveryState.dead_letter;
  attempt_ack_timeout = n;
  failure_category = some ack_timeout_exhausted;
  lease_expires_at = none;
  updated_at = env.now;
}

abbrev pub requeue : ReaperEnv → ℕ → ℕ → Delivery → Delivery
requeue env n delay d = record d {
  state = DeliveryState.retry_wait;
  attempt_ack_timeout = n;
  failure_category = some ack_timeout;
  transport_written_at = none;
  lease_expires_at = none;
  target_instance_id = none;
  next_attempt_at = some (env.now + delay);
  updated_at = env.now;
}

abbrev pub is_held : LeaseState → Bool
is_held lease_held = true
is_held lease_expired = false

abbrev pub expire_lease : ℕ → Lease → Lease
expire_lease now l = record l { state = lease_expired; released_at = some now }

unfoldable pub release_leases_of : ℕ → ℕ → Db → Db
unfolding update_where
release_leases_of now id db = record db {
  delivery_leases =
      update_where (λ l. l.message_id == id && is_held l.state) (expire_lease now)
        db.delivery_leases;
}

unfoldable pub update_awaiting : ℕ → (Delivery → Delivery) → Db → Db
unfolding update_where is_awaiting_ack
update_awaiting id f db = record db {
  deliveries = update_where (is_awaiting_ack id db.messages) f db.deliveries;
}

abbrev pub row_count : ℕ → Db → ℕ
row_count id db = count_where (is_awaiting_ack id db.messages) db.deliveries

-- The budget is used up: the receiver never acknowledged.
unfoldable pub dead_letter_row : ReaperEnv → Delivery → Tally → Db → Db × Tally
unfolding count_where is_awaiting_ack update_awaiting audit
dead_letter_row env row t db =
    let n = row.attempt_ack_timeout + 1 in
    let db' = update_awaiting row.message_id (exhaust env n) db in
    if row_count row.message_id db == 0 then (db, t) else (
      audit ack_timeout_dead_letter (some row.message_id) db',
      record t { dead_lettered = t.dead_lettered + 1 },
    )

unfoldable pub requeue_row : ReaperEnv → Delivery → Tally → Db → Db × Tally
unfolding count_where is_awaiting_ack update_awaiting release_leases_of audit
requeue_row env row t db =
    let n = row.attempt_ack_timeout + 1 in
    let delay = next_backoff_ms row.attempt_ack_timeout env.backoff (env.rng t.drawn) in
    let t' = record t { drawn = t.drawn + 1 } in
    let db' = update_awaiting row.message_id (requeue env n delay) db in
    if row_count row.message_id db == 0 then (db, t') else (
      audit ack_timeout_requeue (some row.message_id)
          (release_leases_of env.now row.message_id db'),
      record t' { ack_timed_out = t'.ack_timed_out + 1 },
    )

abbrev pub used_up : (ℕ → ℕ) → ℕ → ℕ → ℕ
used_up per sid other = if other == sid then suc (per sid) else per other

-- The fairness cap; 0 stands for no cap.
abbrev pub is_capped : ReaperEnv → ℕ → Bool
is_capped env used = not (env.per_session_cap == 0) && leb env.per_session_cap used

unfoldable pub reap_row : ReaperEnv → Delivery → Db × Tally → Db × Tally
unfolding dead_letter_row requeue_row
reap_row env row (db, t) =
    let t' = record t { per_session = used_up t.per_session row.recipient_session_id } in
    if is_capped env (t.per_session row.recipient_session_id)
    then (db, t)
    else (if leb env.backoff.max_attempts (row.attempt_ack_timeout + 1)
        then dead_letter_row env row t' db
        else requeue_row env row t' db)

unfoldable pub reap_rows : ReaperEnv → List Delivery → Db × Tally → Db × Tally
reap_rows env [] s = s
reap_rows env (row ∷ rows) s = reap_rows env rows (reap_row env row s)

unfoldable pub reap_ack_timeouts : ReaperEnv → Db → Db × Tally
reap_ack_timeouts env db = reap_rows env (ack_due_rows env db) (db, no_tally)
