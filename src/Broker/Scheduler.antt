-- ===== src/Broker/Scheduler.antt =====
-- src/broker/scheduler.ts: the pass over the due schedules. Audit rows and the reasons of skips are
-- left out.
pub mod Slots
pub mod Gates
pub mod Deferrals
use Prim.Native.Char.{code}
use xbus.Base.{
  ℕ, zero, suc, ◌+◌, ◌-◌, ◌*◌, ◌/◌, ◌%◌, max, Bool, true, false, not, ◌&&◌, ◌||◌, List, [], ◌∷◌,
  Option, none, some, String, ◌==◌, ltb, leb, if◌then◌else◌, update_where, count_where,
  exists_where, select_where, first_where, order_by, is_some, set_and_le,
}
use text.Mathlib.Text.{◌==◌ as str_eq}
use xbus.Protocol.Errors.{XbusErrorCode, Result, ok, err, unknown_recipient, ambiguous_recipient}
use xbus.Identity.Aliases.{is_digit}
use xbus.Broker.Schedules.{
  Schedule, ScheduleState, active, OperatorSend, Services, Tables, utc_day, in_quiet_hours,
  AdvanceMode, fired_mode, terminal_mode, deferred_mode, is_schedule, advance, is_exhausted,
  next_run_of, advanced,
}
use xbus.Broker.ScheduleThrows.{quiet_hours_throw, advance_throws}
use xbus.Broker.Db.{ScheduleRun, RunState, claimed, sent, skipped, run_failed}

abbrev pub is_slot : ℕ → ℕ → ScheduleRun → Bool
is_slot id slot r = r.schedule_id == id && r.scheduled_for == slot

unfoldable pub set_run : {S : Type 0} → ℕ → ℕ → RunState → Tables S → Tables S
unfolding update_where
set_run id slot state t = record t {
  schedule_runs = update_where (is_slot id slot) (λ r. record r { state = state }) t.schedule_runs;
}

pub data Outcome : Type 0 where
  fired_outcome skipped_outcome failed_outcome : Outcome

abbrev pub wakes_on : Schedule → ℕ → ℕ
wakes_on s today = elim s.wakes_today_date [
  | none ↦ 0
  | some d ↦ if d == today then s.wakes_today else 0
]

abbrev is_run_sent : RunState → Bool
is_run_sent sent = true
is_run_sent _ = false

abbrev is_run_claimed : RunState → Bool
is_run_claimed claimed = true
is_run_claimed _ = false

abbrev has_address : Option Schedule → String → Bool
has_address none a = false
has_address (some s) a = str_eq s.target_address a

abbrev has_key : Option Schedule → ℕ → Bool
has_key none k = false
has_key (some s) k = elim s.concurrency_key [ none ↦ false | some j ↦ j == k ]

-- The runs of the day that were sent to an address.
unfoldable pub sent_to : {S : Type 0} → String → ℕ → Tables S → ℕ
unfolding count_where first_where
sent_to address today t =
    count_where
      (λ (r : ScheduleRun).
        has_address (first_where (is_schedule r.schedule_id) t.schedules) address
        && (is_run_sent r.state && utc_day r.scheduled_for == today))
      t.schedule_runs

-- The claimed runs under a concurrency key.
unfoldable pub in_flight : {S : Type 0} → ℕ → Tables S → ℕ
unfolding count_where first_where
in_flight key t =
    count_where
      (λ (r : ScheduleRun).
        has_key (first_where (is_schedule r.schedule_id) t.schedules) key && is_run_claimed r.state)
      t.schedule_runs

abbrev pub key_busy : {S : Type 0} → Option ℕ → Tables S → Bool
key_busy none t = false
key_busy (some k) t = ltb 1 (in_flight k t)

-- The gates in the order of the code: quiet hours, the schedule's wakes of the day, those of its
-- address, and the concurrency key.
unfoldable pub is_gated : {S : Type 0} → Services S → Schedule → ℕ → Tables S → Bool
unfolding in_quiet_hours sent_to in_flight
is_gated sv s now t =
    in_quiet_hours sv now s.quiet_hours_json
    || (set_and_le s.wake_limit_per_day (wakes_on s (utc_day now))
        || ((ltb 0 sv.per_session_wake_cap
              && leb sv.per_session_wake_cap (sent_to s.target_address (utc_day now) t))
            || key_busy s.concurrency_key t))

abbrev pub request_of : Schedule → ℕ → OperatorSend
request_of s slot = record {
  to = s.target_address;
  text = s.payload_text;
  is_event = s.is_event;
  requires_ack = s.requires_ack;
  requires_reply = s.requires_reply;
  idempotency_key = (s.schedule_id, slot);
}

abbrev is_transient : XbusErrorCode → Bool
is_transient unknown_recipient = true
is_transient ambiguous_recipient = true
is_transient _ = false

abbrev pub failure_mode : XbusErrorCode → AdvanceMode
failure_mode e = if is_transient e then deferred_mode else terminal_mode

abbrev pub count_wake : Schedule → ℕ → Schedule → Schedule
count_wake s today row = record row {
  wakes_today = suc (wakes_on s today);
  wakes_today_date = some today;
}

-- After the operator's send.
unfoldable pub conclude :
    {S : Type 0} → Services S → Schedule → ℕ → ℕ → Result ℕ → Tables S → Tables S × Outcome
unfolding set_run advance update_where
conclude sv s slot now (err e) t =
    (advance sv s now (failure_mode e) (set_run s.schedule_id slot run_failed t), skipped_outcome)
conclude sv s slot now (ok id) t =
    let sent_run = set_run s.schedule_id slot sent t in
    let counted : Tables _ = record sent_run {
      schedules =
          update_where (is_schedule s.schedule_id) (count_wake s (utc_day now)) sent_run.schedules;
    } in
    (advance sv s now fired_mode counted, fired_outcome)

unfoldable pub send_due :
    {S : Type 0} → Services S → Schedule → ℕ → ℕ → Tables S → Tables S × Outcome
unfolding conclude
send_due sv s slot now t =
    let (store', r) = sv.operator_send (request_of s slot) t.store in
    conclude sv s slot now r (record t { store = store' })

unfoldable pub fire_claimed :
    {S : Type 0} → Services S → Schedule → ℕ → ℕ → Tables S → Tables S × Outcome
unfolding is_gated set_run advance send_due
fire_claimed sv s slot now t =
    if is_gated sv s now t
    then (advance sv s now deferred_mode (set_run s.schedule_id slot skipped t), skipped_outcome)
    else send_due sv s slot now t

-- `INSERT OR IGNORE` of the claimed run.
unfoldable pub claim_slot : {S : Type 0} → ℕ → ℕ → Tables S → Tables S
claim_slot id slot t = record t {
  schedule_runs =
      record { run_id = t.next_id; schedule_id = id; scheduled_for = slot; state = claimed }
      ∷ t.schedule_runs;
  next_id = suc t.next_id;
}

unfoldable pub is_claimed : {S : Type 0} → ℕ → ℕ → Tables S → Bool
unfolding exists_where
is_claimed id slot t = exists_where (is_slot id slot) t.schedule_runs

unfoldable pub fire_slot :
    {S : Type 0} → Services S → Schedule → ℕ → ℕ → Tables S → Tables S × Outcome
unfolding is_claimed advance claim_slot fire_claimed
fire_slot sv s slot now t =
    if is_claimed s.schedule_id slot t
    then (advance sv s now terminal_mode t, skipped_outcome)
    else fire_claimed sv s slot now (claim_slot s.schedule_id slot t)

-- A due schedule has a next run.
abbrev pub fire_at :
    {S : Type 0} → Services S → ℕ → Schedule → Tables S → Option ℕ → Tables S × Outcome
fire_at sv now s t none = (t, skipped_outcome)
fire_at sv now s t (some slot) = fire_slot sv s slot now t

-- The mode of the advance behind the operator's send.
abbrev sent_mode : Result ℕ → AdvanceMode
sent_mode (ok id) = fired_mode
sent_mode (err e) = failure_mode e

-- Whether the transaction for a slot throws: only the gate of the quiet hours and the advance can.
unfoldable pub slot_throws : {S : Type 0} → Services S → Schedule → ℕ → ℕ → Tables S → Bool
unfolding is_claimed claim_slot is_gated quiet_hours_throw advance_throws
slot_throws sv s slot now t =
    let asked = (sv.operator_send (request_of s slot) t.store).1 in
    if is_claimed s.schedule_id slot t
    then advance_throws sv s now terminal_mode
    else quiet_hours_throw sv now s.quiet_hours_json
      || (if is_gated sv s now (claim_slot s.schedule_id slot t)
          then advance_throws sv s now deferred_mode
          else advance_throws sv s now (sent_mode asked))

unfoldable pub fire_throws : {S : Type 0} → Services S → ℕ → Schedule → Tables S → Option ℕ → Bool
unfolding slot_throws
fire_throws sv now s t none = false
fire_throws sv now s t (some slot) = slot_throws sv s slot now t

-- A throw rolls the transaction back, and the pass goes on.
unfoldable pub fire_one : {S : Type 0} → Services S → ℕ → Schedule → Tables S → Tables S × Outcome
unfolding fire_throws fire_slot
fire_one sv now s t =
    if fire_throws sv now s t s.next_run then (t, failed_outcome) else fire_at sv now s t s.next_run

abbrev is_active : ScheduleState → Bool
is_active active = true
is_active _ = false

abbrev slot_or_zero : Option ℕ → ℕ
slot_or_zero none = 0
slot_or_zero (some t) = t

abbrev pub is_due : ℕ → Schedule → Bool
is_due now s = is_active s.state && set_and_le s.next_run now

unfoldable pub due_schedules : ℕ → List Schedule → List Schedule
unfolding select_where order_by
due_schedules now ss =
    order_by (λ (s : Schedule). slot_or_zero s.next_run) (select_where (is_due now) ss)

unfoldable pub fire_each : {S : Type 0} → Services S → ℕ → List Schedule → Tables S → Tables S × ℕ
unfolding fire_one
fire_each sv now [] t = (t, 0)
fire_each sv now (s ∷ ss) t =
    let (t', o) = fire_one sv now s t in
    let (t'', n) = fire_each sv now ss t' in
    (t'', elim o [ fired_outcome ↦ suc n | skipped_outcome ↦ n | failed_outcome ↦ n ])

-- The tables after a pass, and the number of schedules that it fired.
unfoldable pub tick : {S : Type 0} → Services S → ℕ → Tables S → Tables S × ℕ
unfolding due_schedules fire_each
tick sv now t = fire_each sv now (due_schedules now t.schedules) t
