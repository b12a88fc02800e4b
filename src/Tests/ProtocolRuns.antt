-- ===== src/Tests/ProtocolRuns.antt =====
-- Runs of the pure modules under src/protocol, src/identity and src/broker.
use text.Mathlib.Text.{◌==◌ as str_eq}
use xbus.Base.{
  ℕ, ◌+◌, ◌*◌, ◌^◌, ◌≤◌, ◌≡◌, refl, ◌≢◌, ◌↔◌, ◌⊎◌, arith, true, false, List, [], ◌∷◌, none, some,
}
use xbus.Protocol.States.{DeliveryState, Trigger, resolve_transition}
use xbus.Protocol.Transitions.{start, move, rank, History-bounded}
use xbus.Protocol.Handshake.{
  Versions, check_compatibility, Overlap, compatible, check_compatibility-ok_iff,
}
use xbus.Broker.Retry.{default_backoff, Fraction, next_backoff_ms, next_backoff_ms_bounds}
use xbus.Broker.Deadlines.{
  default_time_domains, is_expired, acceptance_expiry_ms, acceptance_expiry_pause,
}
use xbus.Broker.Readiness.{
  ReadinessHints, accepts_injection, resolve_readiness, can_ack,
  accepts_injection-resolve_readiness_iff,
}
use xbus.Broker.Readiness
use xbus.Broker.Routing.{
  RoutingInputs, derive_routing_class, is_autonomously_routable, connected,
  is_autonomously_routable_iff,
}
use xbus.Broker.Controls.{SessionControl}

History-bounded_example :
    2 + rank DeliveryState.transport_written ≤ rank DeliveryState.queued + 3 * 0
unfolding resolve_transition
History-bounded_example =
    History-bounded DeliveryState.queued DeliveryState.transport_written 2 0
      (move Trigger.write_ok none false (move Trigger.pickup none false start refl) refl)

abbrev versions : ℕ → ℕ → ℕ → Versions
versions lo hi schema = record {
  minimum_protocol_version = lo;
  maximum_protocol_version = hi;
  schema_version = schema;
}

check_compatibility-ok_iff_example :
    (((check_compatibility (versions 1 2 10) (versions 2 3 10)).ok ≡ true)
      ↔ (Overlap (versions 1 2 10) (versions 2 3 10) × (◌≡◌ {A = ℕ} 10 10)))
    × (((check_compatibility (versions 1 2 10) (versions 2 3 10)).ok ≡ true)
        ↔ ((check_compatibility (versions 1 2 10) (versions 2 3 10)).result ≡ compatible))
check_compatibility-ok_iff_example = check_compatibility-ok_iff (versions 1 2 10) (versions 2 3 10)

abbrev half : Fraction
half = record { num = 1; den = 2 }

next_backoff_ms_bounds_example :
    (next_backoff_ms 2 default_backoff half ≤ 60000)
    × (next_backoff_ms 2 default_backoff half ≤ 1000 * 2 ^ 2)
    × (next_backoff_ms 2 default_backoff half ≤ next_backoff_ms 5 default_backoff half)
next_backoff_ms_bounds_example =
    next_backoff_ms_bounds 2 5 default_backoff half (omega arith) (omega arith) (omega arith)
      (omega arith)

acceptance_expiry_pause_example :
    is_expired (acceptance_expiry_ms 1000 (0 + 500) default_time_domains) (2000 + 500) none none
    ≡ is_expired (acceptance_expiry_ms 1000 0 default_time_domains) 2000 none none
acceptance_expiry_pause_example = acceptance_expiry_pause 1000 0 2000 500 default_time_domains refl

abbrev hints : ReadinessHints
hints = record {
  ack_available = none;
  hook_available = some true;
  live = none;
  version_ok = some true;
}

accepts_injection-resolve_readiness_iff_example :
    (accepts_injection (resolve_readiness "hook_checkpoint" ("ack" ∷ []) hints) ≡ true) ↔ (
      (hints.version_ok ≢ some false)
      × (can_ack ("ack" ∷ []) hints ≡ true)
      × ((str_eq "hook_checkpoint" "hook_checkpoint" ≡ false)
          ⊎ (hints.hook_available ≢ some false)))
accepts_injection-resolve_readiness_iff_example =
    accepts_injection-resolve_readiness_iff "hook_checkpoint" ("ack" ∷ []) hints

abbrev inputs : RoutingInputs
inputs = record {
  readiness = Readiness.ready_checkpoint;
  connection_state = connected;
  expired = false;
  wake_proven = some true;
  auto_delivery_enabled = none;
  receive_control = none;
}

is_autonomously_routable_iff_example :
    (is_autonomously_routable (derive_routing_class inputs) ≡ true) ↔ (
      (inputs.expired ≡ false)
      × (inputs.connection_state ≡ connected)
      × (inputs.auto_delivery_enabled ≢ some false)
      × ((inputs.readiness ≡ Readiness.ready_live)
          ⊎ ((inputs.readiness ≡ Readiness.ready_checkpoint) × (inputs.wake_proven ≡ some true))))
is_autonomously_routable_iff_example = is_autonomously_routable_iff inputs

abbrev controls : List SessionControl
controls = record { session_id = 7; receiving = 0 } ∷ []
