-- ===== src/Broker/Ensure.antt =====
-- src/broker/ensure.ts: ensureBroker, which connects to the broker or starts one. What its
-- collaborators answer is given: the endpoint's probes and the clock by the number of the call.
use mathlib.Core.Path.{◌∙◌, sym}
use xbus.Base.{
  ℕ, zero, suc, ◌+◌, ◌*◌, ◌≡◌, ◌≤◌, ◌<◌, ◌↔◌, refl, inl, inr, Bool, true, false, Bool-cases, Option,
  none, some, arith, ltb, leb, if◌then◌else◌,
}
use xbus.Broker.Liveness.{
  SingletonOutcome, acquired, already_running, contended, stale_cleared, may_start, check_singleton,
  check_singleton_iff, Probes, MayTakeOver,
}

pub data Compatibility : Type 0 where
  agrees differs fails : Compatibility

-- A probe that throws answers false.
pub record EnsureBrokerDeps : Type 0 where
  pub probe : ℕ → Bool
  pub now : ℕ → ℕ
  pub spawns : Bool
  pub compatibility : Compatibility
  pub handshake_timeout_ms : ℕ
  pub max_backoff_ms : ℕ

-- The reason of a check that fails with none of its own is `incompatible`.
pub data Reason : Type 0 where
  incompatible start_timeout spawn_failed unreachable error : Reason

pub data EnsureBrokerResult : Type 0 where
  running : Bool → EnsureBrokerResult
  degraded : Reason → EnsureBrokerResult

-- How often the endpoint was probed and the clock read, how long the call has slept, and how many
-- brokers it asked for.
pub record Calls : Type 0 where
  pub probed : ℕ
  pub reads : ℕ
  pub slept : ℕ
  pub spawned : ℕ

abbrev after_probe : Calls → Calls
after_probe s = record {
  probed = suc s.probed;
  reads = s.reads;
  slept = s.slept;
  spawned = s.spawned;
}

abbrev after_read : Calls → Calls
after_read s = record {
  probed = s.probed;
  reads = suc s.reads;
  slept = s.slept;
  spawned = s.spawned;
}

abbrev after_sleep : ℕ → Calls → Calls
after_sleep ms s = record {
  probed = s.probed;
  reads = s.reads;
  slept = s.slept + ms;
  spawned = s.spawned;
}

abbrev after_spawn : Calls → Calls
after_spawn s = record {
  probed = s.probed;
  reads = s.reads;
  slept = s.slept;
  spawned = suc s.spawned;
}

abbrev min_of : ℕ → ℕ → ℕ
min_of a b = if leb a b then a else b

-- One round of the loop behind its test.
abbrev woken : EnsureBrokerDeps → ℕ → Calls → Calls
woken d backoff s = after_probe (after_sleep (min_of backoff d.max_backoff_ms) (after_read s))

-- None where the fuel runs out.
unfoldable wait_loop : ℕ → EnsureBrokerDeps → ℕ → ℕ → Calls → Option (Bool × Calls)
wait_loop zero d deadline backoff s = none
wait_loop (suc n) d deadline backoff s =
    let rest = wait_loop n d deadline (min_of (backoff * 2) d.max_backoff_ms) (woken d backoff s) in
    if ltb (d.now s.reads) deadline
    then (if d.probe s.probed then some (true, woken d backoff s) else rest)
    else some (false, after_read s)

-- One unit of fuel for each millisecond of the timeout, and one.
unfoldable wait_until_reachable : EnsureBrokerDeps → Calls → Option (Bool × Calls)
unfolding wait_loop
wait_until_reachable d s =
    let deadline = d.now s.reads + d.handshake_timeout_ms in
    if d.probe s.probed
    then some (true, after_probe (after_read s))
    else wait_loop (suc d.handshake_timeout_ms) d deadline 25 (after_probe (after_read s))

abbrev reuse : Compatibility → Bool → EnsureBrokerResult
reuse agrees launched = running launched
reuse differs launched = degraded incompatible
reuse fails launched = degraded error

abbrev try_reuse : EnsureBrokerDeps → Bool → Reason → Calls → EnsureBrokerResult × Calls
try_reuse d launched reason s =
    (if d.probe s.probed then reuse d.compatibility launched else degraded reason, after_probe s)

abbrev waited :
    EnsureBrokerDeps → Bool → Reason → Option (Bool × Calls) → Option (EnsureBrokerResult × Calls)
waited d launched reason none = none
waited d launched reason (some (true, s)) = some (try_reuse d launched reason s)
waited d launched reason (some (false, s)) = some (degraded reason, s)

unfoldable wait_and_reuse :
    EnsureBrokerDeps → Bool → Reason → Calls → Option (EnsureBrokerResult × Calls)
unfolding wait_until_reachable
wait_and_reuse d launched reason s = waited d launched reason (wait_until_reachable d s)

unfoldable launch : EnsureBrokerDeps → Calls → Option (EnsureBrokerResult × Calls)
unfolding wait_and_reuse
launch d s =
    if d.spawns
    then wait_and_reuse d true start_timeout (after_spawn s)
    else some (degraded spawn_failed, after_spawn s)

-- The answer of the singleton check is none where that throws.
abbrev by_outcome :
    EnsureBrokerDeps → Option SingletonOutcome → Calls → Option (EnsureBrokerResult × Calls)
unfolding wait_and_reuse launch
by_outcome d none s = some (degraded error, s)
by_outcome d (some already_running) s = wait_and_reuse d false unreachable s
by_outcome d (some contended) s = wait_and_reuse d false start_timeout s
by_outcome d (some acquired) s = launch d s
by_outcome d (some stale_cleared) s = launch d s

abbrev no_calls : Calls
no_calls = record { probed = 0; reads = 0; slept = 0; spawned = 0 }

unfoldable pub ensure_broker :
    EnsureBrokerDeps → Option SingletonOutcome → Option (EnsureBrokerResult × Calls)
unfolding wait_and_reuse launch
ensure_broker d outcome =
    if d.probe 0
    then some (reuse d.compatibility false, after_probe no_calls)
    else by_outcome d outcome (after_probe no_calls)

-- The clock moves on between two readings.
abbrev pub IsAdvancing : EnsureBrokerDeps → Type 0
IsAdvancing d = (i : ℕ) → d.now i < d.now (suc i)

-- The call ends, having asked for that many brokers.
abbrev Ends : {A : Type 0} → Option (A × Calls) → ℕ → Type 0
Ends {A = A} o n = (r : A × Calls) × ((o ≡ some r) × (r.1.spawned ≡ n))

late_lem : (a b : ℕ) → b ≤ a → ltb a b ≡ false
late_lem a b h = ground arith

wait_loop-Ends :
    (n : ℕ) (d : EnsureBrokerDeps) (deadline backoff : ℕ) (s : Calls)
    → IsAdvancing d
    → deadline ≤ d.now s.reads + n
    → Ends (wait_loop (suc n) d deadline backoff s) s.spawned
unfolding wait_loop
wait_loop-Ends zero d deadline backoff s adv h =
    ((false, after_read s), (rw (late_lem (d.now s.reads) deadline (ground arith)), refl))
wait_loop-Ends (suc n) d deadline backoff s adv h =
    elim (Bool-cases (ltb (d.now s.reads) deadline)) [
      | inr late ↦ ((false, after_read s), (rw (late), refl))
      | inl early ↦ elim (Bool-cases (d.probe s.probed)) [
        | inl up ↦ ((true, woken d backoff s), (rw (early, up), refl))
        | inr down ↦
            let rest =
              wait_loop-Ends n d deadline (min_of (backoff * 2) d.max_backoff_ms)
                (woken d backoff s) adv (ground (arith, adv s.reads)) in
            (rest.0, (rw (early, down) rest.1.0, rest.1.1))
      ]
    ]

wait_until_reachable-Ends :
    (d : EnsureBrokerDeps) (s : Calls) → IsAdvancing d → Ends (wait_until_reachable d s) s.spawned
unfolding wait_until_reachable
wait_until_reachable-Ends d s adv = elim (Bool-cases (d.probe s.probed)) [
  | inl up ↦ ((true, after_probe (after_read s)), (rw (up), refl))
  | inr down ↦
      let rest =
        wait_loop-Ends d.handshake_timeout_ms d (d.now s.reads + d.handshake_timeout_ms) 25
          (after_probe (after_read s)) adv (ground (arith, adv s.reads)) in
      (rest.0, (rw (down) rest.1.0, rest.1.1))
]

waited-Ends :
    (d : EnsureBrokerDeps) (launched : Bool) (reason : Reason) (r : Bool × Calls)
    → Ends (waited d launched reason (some r)) r.1.spawned
waited-Ends d launched reason (true, s) = (try_reuse d launched reason s, (refl, refl))
waited-Ends d launched reason (false, s) = ((degraded reason, s), (refl, refl))

wait_and_reuse-Ends :
    (d : EnsureBrokerDeps) (launched : Bool) (reason : Reason) (s : Calls)
    → IsAdvancing d
    → Ends (wait_and_reuse d launched reason s) s.spawned
unfolding wait_and_reuse
wait_and_reuse-Ends d launched reason s adv =
    let loop = wait_until_reachable-Ends d s adv in
    let end = waited-Ends d launched reason loop.0 in
    (end.0, (rw (loop.1.0) end.1.0, end.1.1 ∙ loop.1.1))

if-Ends :
    (b : Bool) (x y : Option (EnsureBrokerResult × Calls)) (n : ℕ)
    → Ends x n
    → Ends y n
    → Ends (if b then x else y) n
if-Ends true x y n e f = e
if-Ends false x y n e f = f

launch-Ends : (d : EnsureBrokerDeps) (s : Calls) → IsAdvancing d → Ends (launch d s) (suc s.spawned)
unfolding launch
launch-Ends d s adv =
    if-Ends d.spawns (wait_and_reuse d true start_timeout (after_spawn s))
      (some (degraded spawn_failed, after_spawn s)) (suc s.spawned)
      (wait_and_reuse-Ends d true start_timeout (after_spawn s) adv)
      ((degraded spawn_failed, after_spawn s), (refl, refl))

-- How many brokers the outcome of the singleton check asks for.
abbrev asked : Bool → ℕ
asked true = 1
asked false = 0

by_outcome-Ends :
    (d : EnsureBrokerDeps) (o : SingletonOutcome)
    → IsAdvancing d
    → Ends (by_outcome d (some o) (after_probe no_calls)) (asked (may_start o))
unfolding by_outcome launch
by_outcome-Ends d acquired adv = launch-Ends d (after_probe no_calls) adv
by_outcome-Ends d already_running adv =
    wait_and_reuse-Ends d false unreachable (after_probe no_calls) adv
by_outcome-Ends d contended adv =
    wait_and_reuse-Ends d false start_timeout (after_probe no_calls) adv
by_outcome-Ends d stale_cleared adv = launch-Ends d (after_probe no_calls) adv

asked_iff : (b : Bool) → (asked b ≡ 1) ↔ (b ≡ true)
asked_iff true = ground arith
asked_iff false = ground arith

asked_most : (b : Bool) → asked b ≤ 1
asked_most true = ground arith
asked_most false = ground arith

-- Where the clock moves on, the call for a broker ends, whatever the probes answer, and has asked
-- for one broker at most; it has asked for one exactly if the endpoint did not answer to it nor to
-- the singleton check, and there was no state file or its process was proved gone.
pub ensure_broker-check_singleton :
    (d : EnsureBrokerDeps) (reachable : Bool) (state : Option (Option ℕ)) (p : Probes)
    → IsAdvancing d
    → (r : EnsureBrokerResult × Calls) × ((ensure_broker d
            (some (check_singleton reachable state p))
          ≡ some r)
        × ((r.1.spawned ≤ 1)
            × ((r.1.spawned ≡ 1)
                ↔ ((d.probe 0 ≡ false) × ((reachable ≡ false) × MayTakeOver state p)))))
unfolding ensure_broker by_outcome launch
ensure_broker-check_singleton d reachable state p adv =
    let outcome = check_singleton reachable state p in
    let decided = check_singleton_iff reachable state p in
    elim (Bool-cases (d.probe 0)) [
      | inl up ↦ (
        (reuse d.compatibility false, after_probe no_calls),
        (rw (up), (ground arith, ground arith)),
      )
      | inr down ↦
          let end = by_outcome-Ends d outcome adv in
          let once = asked_most (may_start outcome) in
          let asks = asked_iff (may_start outcome) in
          (
            end.0,
            (
              rw (down) end.1.0,
              (
                rw (end.1.1) once,
                (
                  λ e. (down, decided.0 (asks.0 (sym end.1.1 ∙ e))),
                  λ q. end.1.1 ∙ asks.1 (decided.1 q.1),
                ),
              ),
            ),
          )
    ]
