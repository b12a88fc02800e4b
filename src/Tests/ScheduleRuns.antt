-- ===== src/Tests/ScheduleRuns.antt =====
-- Runs of src/broker/scheduler.ts, with a store that counts what it is asked to send.
use xbus.Base.{ℕ, suc, ◌≡◌, ◌<◌, refl, true, false, List, [], ◌∷◌, none, some, arith}
use xbus.Protocol.Errors.{ok}
use xbus.Broker.Schedules.{
  Schedule, ScheduleState, interval, once, Services, Tables, advanced, deferred_mode,
  in_quiet_hours, in_windows,
}
use xbus.Broker.Scheduler.{tick}
use xbus.Broker.Scheduler.Slots.{Slot, logging, ticks}
use xbus.Broker.Scheduler.Deferrals.{advanced_later}

abbrev hourly : Schedule
hourly = record {
  schedule_id = 1;
  target_address = "helper";
  payload_text = "report";
  is_event = false;
  requires_ack = true;
  requires_reply = false;
  kind = interval;
  schedule_expr = some "3600000";
  quiet_hours_json = some "night";
  min_interval_ms = 60000;
  wake_limit_per_day = some 5;
  wakes_today = 0;
  wakes_today_date = none;
  next_run = some 36000000;
  last_run = none;
  max_fires = none;
  fires_used = 0;
  concurrency_key = some 3;
  state = ScheduleState.active;
}

-- Quiet from ten in the evening to six.
abbrev services : Services ℕ
services = record {
  operator_send = λ q n. (suc n, ok n);
  windows_of = λ s. some (record { start = "22:00"; end_of = "6:00" }) ∷ [];
  trim = λ s. s;
  positive_number = λ s. some 3600000;
  per_session_wake_cap = 200;
}

abbrev tables : Tables (ℕ × List Slot)
tables = record { schedules = hourly ∷ []; schedule_runs = []; store = (0, []); next_id = 1 }

quiet_at_night : in_quiet_hours services 82800000 (some "night") ≡ true
unfolding in_quiet_hours in_windows
quiet_at_night = refl

-- Two passes at one instant and one an hour later.
two_slots :
    (ticks (logging services) (36000000 ∷ 36000000 ∷ 39600000 ∷ []) tables).store
    ≡ (2, (1, 39600000) ∷ (1, 36000000) ∷ [])
unfolding ticks tick
two_slots = refl

-- A window that is malformed: the transaction is rolled back, and nothing is fired or claimed.
abbrev broken : Services ℕ
broken = record services { windows_of = λ s. none ∷ [] }

abbrev broken_tables : Tables (ℕ × List Slot)
broken_tables = record tables { schedules = record hourly { quiet_hours_json = some "[1]" } ∷ [] }

rolled_back : tick (logging broken) 36000000 broken_tables ≡ (broken_tables, 0)
unfolding tick
rolled_back = refl

abbrev night_task : Schedule
night_task = record hourly { kind = once; next_run = some 82800000 }

advanced_later_example :
    let after = advanced services night_task 82800000 deferred_mode night_task in
    (after.state ≡ ScheduleState.active)
    × (after.fires_used ≡ 0)
    × ((n : ℕ) × (after.next_run ≡ some n) × (82800000 < n))
advanced_later_example = advanced_later services night_task 82800000 (omega arith)
