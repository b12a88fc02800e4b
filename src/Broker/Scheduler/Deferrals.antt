-- ===== src/Broker/Scheduler/Deferrals.antt =====
-- src/broker/scheduler.ts: a schedule that a gate or an unknown recipient has held back.
use xbus.Base.{
  ℕ, zero, suc, ◌+◌, ◌≡◌, ◌≤◌, ◌<◌, refl, inl, inr, Option, none, some, String, arith, Bool-cases,
  max,
}
use xbus.Broker.Schedules.{
  Schedule, ScheduleKind, once, interval, cron, Services, advanced, deferred_mode, is_exhausted,
  next_run_of, push_past, in_quiet_hours, candidate, compute_next_run, step_of,
}

module _ {S : Type 0} (sv : Services S) where
  push_past_le : (quiet : Option String) (step n next : ℕ) → next ≤ push_past sv quiet step n next
  unfolding push_past
  push_past_le quiet step zero next = omega arith
  push_past_le quiet step (suc n) next =
      let rest = push_past_le quiet step n (next + step) in
      elim (Bool-cases (in_quiet_hours sv next quiet)) [
        | inl on ↦ rw on (omega (arith, rest))
        | inr off ↦ rw off (omega arith)
      ]

  -- A candidate is behind the present instant.
  candidate_later :
      (kind : ScheduleKind) (raw : Option ℕ) (now floor step : ℕ)
      → 0 < floor
      → 0 < step
      → (n : ℕ) × (candidate kind raw now floor step deferred_mode ≡ some n) × (now < n)
  unfolding compute_next_run
  candidate_later once raw now floor step f p = (now + step, refl, omega arith)
  candidate_later interval none now floor step f p = (now + floor, refl, omega arith)
  candidate_later interval (some raw) now floor step f p = (now + max raw floor, refl, omega arith)
  candidate_later cron none now floor step f p = (now + step, refl, omega arith)
  candidate_later cron (some raw) now floor step f p = (now + max raw floor, refl, omega arith)

-- A schedule that is deferred, also one that runs once, keeps its state and the fires it has used,
-- and gets a next run behind the present instant, provided that its floor of the interval is positive.
pub advanced_later :
    {S : Type 0} (sv : Services S) (s : Schedule) (now : ℕ)
    → 0 < s.min_interval_ms
    → let after = advanced sv s now deferred_mode s in
      (after.state ≡ s.state)
      × (after.fires_used ≡ s.fires_used)
      × ((n : ℕ) × (after.next_run ≡ some n) × (now < n))
unfolding is_exhausted next_run_of
advanced_later sv s now floor =
    let (n, e, later) =
      candidate_later sv s.kind (sv.positive_number s.schedule_expr) now s.min_interval_ms
        (step_of s) floor (omega arith) in
    let least = push_past_le sv s.quiet_hours_json (step_of s) 96 n in
    (
      refl,
      refl,
      (push_past sv s.quiet_hours_json (step_of s) 96 n, rw e refl, omega (arith, later, least)),
    )
