-- ===== src/Broker/Liveness.antt =====
-- src/broker/liveness-proof.ts, singleton.ts and ensure.ts: whether the process of a state file is a
-- live broker, and whether a new broker is spawned. What the probes of the operating system answer is
-- an argument.
use xbus.Base.{
  ℕ, ◌+◌, ◌≡◌, ◌↔◌, ◌⊎◌, ◌<◌, Bool, true, false, ◌&&◌, Option, none, some, arith, leb,
  if◌then◌else◌,
}

pub data LivenessVerdict : Type 0 where
  proven_live_broker proven_dead_or_recycled inconclusive : LivenessVerdict

-- What the seams of `LivenessDeps` answer: whether the process lives, its creation time, and the
-- handshake, none where that is not consulted or cannot tell.
pub record Probes : Type 0 where
  pub pid_alive : Bool
  pub creation_time_ms : Option ℕ
  pub handshake_ok : Option Bool
  pub tolerance_ms : ℕ

-- `Math.abs(a - b) <= tol`.
abbrev pub is_within : ℕ → ℕ → ℕ → Bool
is_within a b tol = leb a (b + tol) && leb b (a + tol)

abbrev by_handshake : Option Bool → LivenessVerdict
by_handshake none = inconclusive
by_handshake (some true) = proven_live_broker
by_handshake (some false) = proven_dead_or_recycled

abbrev by_creation : Option ℕ → Option ℕ → Probes → LivenessVerdict
by_creation none now p = by_handshake p.handshake_ok
by_creation (some recorded) none p = by_handshake p.handshake_ok
by_creation (some recorded) (some now) p =
    if is_within now recorded p.tolerance_ms then proven_live_broker else proven_dead_or_recycled

unfoldable pub classify_liveness : Option ℕ → Probes → LivenessVerdict
classify_liveness recorded p =
    if p.pid_alive then by_creation recorded p.creation_time_ms p else proven_dead_or_recycled

pub data SingletonOutcome : Type 0 where
  acquired already_running contended stale_cleared : SingletonOutcome

abbrev outcome_of : LivenessVerdict → SingletonOutcome
outcome_of proven_dead_or_recycled = stale_cleared
outcome_of inconclusive = contended
outcome_of proven_live_broker = contended

-- The state file's part: none where there is no file, and else the creation time recorded in it.
abbrev by_state_file : Option (Option ℕ) → Probes → SingletonOutcome
by_state_file none p = acquired
by_state_file (some recorded) p = outcome_of (classify_liveness recorded p)

unfoldable pub check_singleton : Bool → Option (Option ℕ) → Probes → SingletonOutcome
unfolding classify_liveness
check_singleton reachable state p = if reachable then already_running else by_state_file state p

-- The outcomes after which `ensureBroker` of src/broker/ensure.ts spawns a broker.
abbrev pub may_start : SingletonOutcome → Bool
may_start acquired = true
may_start stale_cleared = true
may_start _ = false

abbrev pub Replaced : Option ℕ → Option ℕ → Probes → Type 0
Replaced none now p = p.handshake_ok ≡ some false
Replaced (some recorded) none p = p.handshake_ok ≡ some false
Replaced (some recorded) (some now) p =
    (recorded + p.tolerance_ms < now) ⊎ (now + p.tolerance_ms < recorded)

-- The evidence that the recorded process is gone: no such process, one created at another time, or,
-- where the creation times cannot be compared, one that fails the handshake.
abbrev pub IsGone : Option ℕ → Probes → Type 0
IsGone recorded p = (p.pid_alive ≡ false) ⊎ Replaced recorded p.creation_time_ms p

abbrev pub MayTakeOver : Option (Option ℕ) → Probes → Type 0
MayTakeOver none p = Unit {0}
MayTakeOver (some recorded) p = IsGone recorded p

by_handshake_iff :
    (o : Option Bool) → (may_start (outcome_of (by_handshake o)) ≡ true) ↔ (o ≡ some false)
by_handshake_iff none = ground arith
by_handshake_iff (some true) = ground arith
by_handshake_iff (some false) = ground arith

by_creation_iff :
    (recorded now : Option ℕ) (p : Probes)
    → (may_start (outcome_of (by_creation recorded now p)) ≡ true) ↔ Replaced recorded now p
by_creation_iff none now p = by_handshake_iff p.handshake_ok
by_creation_iff (some recorded) none p = by_handshake_iff p.handshake_ok
by_creation_iff (some recorded) (some now) p = ground arith

by_state_file_iff :
    (state : Option (Option ℕ)) (p : Probes)
    → (may_start (by_state_file state p) ≡ true) ↔ MayTakeOver state p
unfolding classify_liveness
by_state_file_iff none p = ground arith
by_state_file_iff (some recorded) p = ground (arith, by_creation_iff recorded p.creation_time_ms p)

-- The outcome of the singleton check is one after which a broker is spawned exactly if the endpoint
-- does not answer, and there is no state file or its process is proved gone.
pub check_singleton_iff :
    (reachable : Bool) (state : Option (Option ℕ)) (p : Probes)
    → (may_start (check_singleton reachable state p) ≡ true)
      ↔ ((reachable ≡ false) × MayTakeOver state p)
unfolding check_singleton classify_liveness
check_singleton_iff reachable state p = ground (arith, by_state_file_iff state p)
