-- ===== src/Broker/Schedules.antt =====
-- src/broker/scheduler.ts: schedules, quiet hours and the advance of a schedule. Instants are
-- milliseconds and days are counted in UTC. `Services` is what the scheduler calls: the operator's
-- send of the store, whose tables are of any type `S`, JSON, `Number` and `trim`.
use Prim.Native.Char.{code}
use xbus.Base.{
  ℕ, zero, suc, ◌+◌, ◌-◌, ◌*◌, ◌/◌, ◌%◌, max, Bool, true, false, not, ◌&&◌, ◌||◌, List, [], ◌∷◌,
  Option, none, some, String, ◌==◌, ltb, leb, if◌then◌else◌, update_where, set_and_le,
}
use xbus.Protocol.Errors.{Result}
use xbus.Identity.Aliases.{is_digit}
use xbus.Broker.Db.{ScheduleRun}

pub data ScheduleKind : Type 0 where
  once interval cron : ScheduleKind

pub data ScheduleState : Type 0 where
  active paused exhausted cancelled : ScheduleState

-- The columns of `schedules` that a tick uses; `is_event` is `payload_kind = 'event'`.
pub record Schedule : Type 0 where
  pub schedule_id : ℕ
  pub target_address : String
  pub payload_text : String
  pub is_event : Bool
  pub requires_ack : Bool
  pub requires_reply : Bool
  pub kind : ScheduleKind
  pub schedule_expr : Option String
  pub quiet_hours_json : Option String
  pub min_interval_ms : ℕ
  pub wake_limit_per_day : Option ℕ
  pub wakes_today : ℕ
  pub wakes_today_date : Option ℕ
  pub next_run : Option ℕ
  pub last_run : Option ℕ
  pub max_fires : Option ℕ
  pub fires_used : ℕ
  pub concurrency_key : Option ℕ
  pub state : ScheduleState

pub record QuietWindow : Type 0 where
  pub start : String
  pub end_of : String

-- What the operator is asked to send; the key is the schedule and its slot.
pub record OperatorSend : Type 0 where
  pub to : String
  pub text : String
  pub is_event : Bool
  pub requires_ack : Bool
  pub requires_reply : Bool
  pub idempotency_key : ℕ × ℕ

pub record Tables (S : Type 0) : Type 0 where
  pub schedules : List Schedule
  pub schedule_runs : List ScheduleRun
  pub store : S
  pub next_id : ℕ

-- The runtime and the store. An entry of the windows is none where it is no window with two texts,
-- and a text whose windows cannot be listed has one such entry.
pub record Services (S : Type 0) : Type 0 where
  pub operator_send : OperatorSend → S → S × Result ℕ
  pub windows_of : String → List (Option QuietWindow)
  pub trim : String → String
  pub positive_number : Option String → Option ℕ
  pub per_session_wake_cap : ℕ

abbrev pub utc_minutes : ℕ → ℕ
utc_minutes now = now / 60000 % 1440

abbrev pub utc_day : ℕ → ℕ
utc_day now = now / 86400000

abbrev digits : ℕ → ℕ → ℕ
digits a b = (a - 48) * 10 + (b - 48)

-- `hhmmToMin`: one or two digits, a colon and two digits; none is the code's -1.
abbrev pub hhmm_to_min : String → Option ℕ
hhmm_to_min (String.◌∷◌ a (String.◌∷◌ c (String.◌∷◌ d (String.◌∷◌ e String.[])))) =
    if is_digit (code a) && (code c == b':' && (is_digit (code d) && is_digit (code e)))
    then some ((code a - 48) * 60 + digits (code d) (code e))
    else none
hhmm_to_min (String.◌∷◌ a (String.◌∷◌ b (String.◌∷◌ c (String.◌∷◌ d (String.◌∷◌ e String.[]))))) =
    if is_digit (code a)
      && (is_digit (code b) && (code c == b':' && (is_digit (code d) && is_digit (code e))))
    then some (digits (code a) (code b) * 60 + digits (code d) (code e))
    else none
hhmm_to_min _ = none

-- A window whose start is behind its end goes past midnight.
abbrev pub in_window : Option ℕ → Option ℕ → ℕ → Bool
in_window none e cur = false
in_window (some s) none cur = false
in_window (some s) (some e) cur = if leb s e then leb s cur && ltb cur e else leb s cur || ltb cur e

unfoldable pub in_windows : (String → String) → List (Option QuietWindow) → ℕ → Bool
in_windows trim [] cur = false
in_windows trim (none ∷ ws) cur = false
in_windows trim (some w ∷ ws) cur =
    in_window (hhmm_to_min (trim w.start)) (hhmm_to_min (trim w.end_of)) cur
    || in_windows trim ws cur

-- `windows_of` gives no window for a text that is no JSON or has none.
unfoldable pub in_quiet_hours : {S : Type 0} → Services S → ℕ → Option String → Bool
unfolding in_windows
in_quiet_hours sv now none = false
in_quiet_hours sv now (some json) = in_windows sv.trim (sv.windows_of json) (utc_minutes now)

-- `positive_number` is the value of `Number(expr ?? '')` where that is finite and positive.
abbrev interval_of : Option ℕ → ℕ → ℕ
interval_of none floor = floor
interval_of (some raw) floor = max raw floor

abbrev cron_next : Option ℕ → ℕ → ℕ → Option ℕ
cron_next none after floor = none
cron_next (some raw) after floor = some (after + max raw floor)

unfoldable pub compute_next_run : ScheduleKind → Option ℕ → ℕ → ℕ → Option ℕ
compute_next_run once raw after floor = none
compute_next_run interval raw after floor = some (after + interval_of raw floor)
compute_next_run cron raw after floor = cron_next raw after floor

pub data AdvanceMode : Type 0 where
  fired_mode terminal_mode deferred_mode : AdvanceMode

abbrev pub is_fired : AdvanceMode → Bool
is_fired fired_mode = true
is_fired _ = false

abbrev pub is_deferred : AdvanceMode → Bool
is_deferred deferred_mode = true
is_deferred _ = false

abbrev is_once : ScheduleKind → Bool
is_once once = true
is_once _ = false

-- At most `n` steps out of the quiet hours.
unfoldable pub push_past : {S : Type 0} → Services S → Option String → ℕ → ℕ → ℕ → ℕ
unfolding in_quiet_hours
push_past sv quiet step zero next = next
push_past sv quiet step (suc n) next =
    let pushed = push_past sv quiet step n (next + step) in
    if in_quiet_hours sv next quiet then pushed else next

abbrev pub candidate : ScheduleKind → Option ℕ → ℕ → ℕ → ℕ → AdvanceMode → Option ℕ
candidate kind raw now floor step mode = elim (compute_next_run kind raw now floor) [
  | none ↦ if is_deferred mode then some (now + step) else none
  | some t ↦ some t
]

abbrev pub pushed : {S : Type 0} → Services S → Option String → ℕ → Option ℕ → Option ℕ
pushed sv quiet step none = none
pushed sv quiet step (some t) = some (push_past sv quiet step 96 t)

abbrev pub step_of : Schedule → ℕ
step_of s = max s.min_interval_ms 900000

unfoldable pub next_run_of : {S : Type 0} → Services S → Schedule → ℕ → AdvanceMode → Option ℕ
unfolding push_past compute_next_run
next_run_of sv s now mode =
    pushed sv s.quiet_hours_json (step_of s)
      (candidate s.kind (sv.positive_number s.schedule_expr) now s.min_interval_ms (step_of s) mode)

abbrev fires_of : Schedule → AdvanceMode → ℕ
fires_of s mode = if is_fired mode then suc s.fires_used else s.fires_used

unfoldable pub is_exhausted : Schedule → AdvanceMode → Bool
is_exhausted s mode =
    not (is_deferred mode) && (set_and_le s.max_fires (fires_of s mode) || is_once s.kind)

abbrev pub advanced : {S : Type 0} → Services S → Schedule → ℕ → AdvanceMode → Schedule → Schedule
advanced sv s now mode row = record row {
  fires_used = fires_of s mode;
  last_run = if is_fired mode then some now else s.next_run;
  next_run = if is_exhausted s mode then none else next_run_of sv s now mode;
  state = if is_exhausted s mode then exhausted else row.state;
}

abbrev pub is_schedule : ℕ → Schedule → Bool
is_schedule id s = s.schedule_id == id

unfoldable pub advance :
    {S : Type 0} → Services S → Schedule → ℕ → AdvanceMode → Tables S → Tables S
unfolding update_where is_exhausted next_run_of
advance sv s now mode t = record t {
  schedules = update_where (is_schedule s.schedule_id) (advanced sv s now mode) t.schedules;
}
