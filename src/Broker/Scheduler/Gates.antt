-- ===== src/Broker/Scheduler/Gates.antt =====
-- src/broker/scheduler.ts: when a fire slot is sent, with the gates said by numbers.
use xbus.Base.{ℕ, ◌≡◌, ◌≤◌, ◌<◌, ◌⊎◌, false, Option, none, some}
use xbus.Broker.Schedules.{Schedule, Services, Tables, in_quiet_hours, utc_day}
use xbus.Broker.Scheduler.{wakes_on, sent_to, in_flight}

-- A limit of the day, where there is one, is not reached.
abbrev pub BelowLimit : Option ℕ → ℕ → Type 0
BelowLimit none n = Unit {0}
BelowLimit (some limit) n = n < limit

-- A cap of 0 is none.
abbrev pub BelowCap : ℕ → ℕ → Type 0
BelowCap cap n = (cap ≡ 0) ⊎ (n < cap)

-- At most one claimed run, the own one, is under the key.
abbrev pub IsAlone : {S : Type 0} → Option ℕ → Tables S → Type 0
IsAlone none t = Unit {0}
IsAlone (some key) t = in_flight key t ≤ 1

-- What lets a claimed slot be sent.
abbrev pub IsOpen : {S : Type 0} → Services S → Schedule → ℕ → Tables S → Type 0
IsOpen sv s now t =
    (in_quiet_hours sv now s.quiet_hours_json ≡ false)
    × BelowLimit s.wake_limit_per_day (wakes_on s (utc_day now))
    × BelowCap sv.per_session_wake_cap (sent_to s.target_address (utc_day now) t)
    × IsAlone s.concurrency_key t
