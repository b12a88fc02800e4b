-- ===== src/Adapter/Lifecycle.antt =====
-- src/adapter/lifecycle.ts: the lifecycle of a session, and its projection to readiness.
use xbus.Base.{◌≡◌, Bool, true, false, ◌&&◌, arith}
use xbus.Broker.Readiness.{Readiness, accepts_injection}

pub data SessionLifecycle : Type 0 where
  created starting initializing ready_manual ready_checkpoint ready_live busy : SessionLifecycle
  paused dnd degraded disconnected stopping stopped incompatible : SessionLifecycle

-- `PROHIBITED_INJECTION` and `AUTONOMOUS_INJECTABLE`.
unfoldable pub is_prohibited : SessionLifecycle → Bool
is_prohibited created = true
is_prohibited starting = true
is_prohibited initializing = true
is_prohibited incompatible = true
is_prohibited stopping = true
is_prohibited stopped = true
is_prohibited _ = false

unfoldable pub is_autonomous : SessionLifecycle → Bool
is_autonomous ready_checkpoint = true
is_autonomous ready_live = true
is_autonomous _ = false

unfoldable pub to_readiness : SessionLifecycle → Readiness
to_readiness created = Readiness.initializing
to_readiness starting = Readiness.initializing
to_readiness busy = Readiness.initializing
to_readiness paused = Readiness.initializing
to_readiness dnd = Readiness.initializing
to_readiness ready_manual = Readiness.initializing
to_readiness degraded = Readiness.degraded_ack_unavailable
to_readiness stopping = Readiness.disconnected
to_readiness stopped = Readiness.disconnected
to_readiness initializing = Readiness.initializing
to_readiness ready_checkpoint = Readiness.ready_checkpoint
to_readiness ready_live = Readiness.ready_live
to_readiness disconnected = Readiness.disconnected
to_readiness incompatible = Readiness.incompatible

-- The broker's gate on readiness, asked about the projection of a lifecycle state, lets exactly the
-- autonomously injectable states through, and none of the prohibited ones.
pub accepts_injection-to_readiness :
    (l : SessionLifecycle)
    → (accepts_injection (to_readiness l) ≡ is_autonomous l)
      × ((is_prohibited l && accepts_injection (to_readiness l)) ≡ false)
unfolding accepts_injection to_readiness is_autonomous is_prohibited
accepts_injection-to_readiness l = ground arith
