-- ===== src/Protocol/Transitions.antt =====
-- Theorems on the delivery state machine of src/protocol/states.ts.
use xbus.Base.{
  ℕ, suc, ◌+◌, ◌*◌, ◌≤◌, ◌≡◌, refl, ◌↔◌, Bool, true, false, Option, arith, All, if◌then◌else◌,
}
use xbus.Protocol.States.{
  DeliveryState, queued, dispatching, transport_written, accepted, completed, retry_wait, rejected,
  expired, dead_letter, cancelled, Trigger, pickup, cancel, Guard, edges, illegal, legal,
  resolve_transition, is_terminal,
}

-- Every edge of the table is what its source state and trigger resolve to: no two edges share a
-- source and a trigger, so none hides another.
pub edges-resolve :
    All (λ e. resolve_transition e.from e.trigger ≡ legal e.to e.guard e.increments_attempt) edges
unfolding edges resolve_transition
edges-resolve = ground arith

terminal_stuck :
    (s : DeliveryState) (t : Trigger) → is_terminal s ≡ true → resolve_transition s t ≡ illegal
unfolding is_terminal resolve_transition
terminal_stuck queued t h = cc
terminal_stuck dispatching t h = cc
terminal_stuck transport_written t h = cc
terminal_stuck accepted t h = cc
terminal_stuck retry_wait t h = cc
terminal_stuck completed pickup h = refl
terminal_stuck completed _ h = refl
terminal_stuck rejected pickup h = refl
terminal_stuck rejected _ h = refl
terminal_stuck expired pickup h = refl
terminal_stuck expired _ h = refl
terminal_stuck dead_letter pickup h = refl
terminal_stuck dead_letter _ h = refl
terminal_stuck cancelled pickup h = refl
terminal_stuck cancelled _ h = refl

stuck_terminal : (s : DeliveryState) → resolve_transition s cancel ≡ illegal → is_terminal s ≡ true
unfolding is_terminal resolve_transition
stuck_terminal queued h = cc
stuck_terminal dispatching h = cc
stuck_terminal transport_written h = cc
stuck_terminal accepted h = cc
stuck_terminal retry_wait h = cc
stuck_terminal _ h = refl

-- The terminal states are exactly the states that no trigger leaves.
is_terminal_iff-resolve_transition :
    (s : DeliveryState)
    → (is_terminal s ≡ true) ↔ ((t : Trigger) → resolve_transition s t ≡ illegal)
is_terminal_iff-resolve_transition s =
    (λ h t. terminal_stuck s t h, λ h. stuck_terminal s (h cancel))

-- A history of legal transitions, with the number of attempts that it has counted.
pub data History (s : DeliveryState) : DeliveryState → ℕ → ℕ → Type 0 where
  start : History s s 0 0
  move :
      {u v : DeliveryState} {n k : ℕ} (t : Trigger) (g : Option Guard) (i : Bool)
      → History s u n k
      → resolve_transition u t ≡ legal v g i
      → History s v (suc n) (if i then suc k else k)

-- How many transitions may follow a state before an attempt is counted.
abbrev pub rank : DeliveryState → ℕ
rank queued = 4
rank dispatching = 3
rank transport_written = 2
rank accepted = 1
rank retry_wait = 1
rank _ = 0

rank-resolve_transition :
    (u v : DeliveryState) (t : Trigger) (g : Option Guard) (i : Bool)
    → resolve_transition u t ≡ legal v g i
    → rank v + 1 ≤ rank u + (if i then 3 else 0)
unfolding resolve_transition
rank-resolve_transition u v t g i h = ground arith

-- The transitions of a history that counts `k` retries, and the rank of the state it ends in, are
-- together at most the rank of the state it starts in, which is 4 for `queued`, and `3 * k`.
pub History-bounded :
    (s u : DeliveryState) (n k : ℕ) → History s u n k → n + rank u ≤ rank s + 3 * k
History-bounded s u n k start = omega arith
History-bounded s u _ _ (move {u = w} {n = m} {k = j} t g true h e) =
    omega (arith, History-bounded s w m j h, rank-resolve_transition w u t g true e)
History-bounded s u _ _ (move {u = w} {n = m} {k = j} t g false h e) =
    omega (arith, History-bounded s w m j h, rank-resolve_transition w u t g false e)
