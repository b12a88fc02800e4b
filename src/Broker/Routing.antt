-- ===== src/Broker/Routing.antt =====
-- src/broker/routing-class.ts: the outward routing class of a session, and the delivery word
-- that a sender is told.
use xbus.Base.{◌≡◌, ◌≢◌, ◌↔◌, ◌⊎◌, Bool, true, false, Option, some, arith, if◌then◌else◌, ◌||◌}
use xbus.Broker.Readiness.{
  Readiness, initializing, ready_checkpoint, degraded_ack_unavailable, degraded_hook_unavailable,
  incompatible, hint_is,
}
use xbus.Broker.Readiness
use xbus.Protocol.States.{DeliveryState}

pub data RoutingClass : Type 0 where
  ready_live ready_wakeable degraded_checkpoint_only unavailable pending_activation : RoutingClass

-- `sessions.state`, and the receive control.
pub data ConnectionState : Type 0 where
  connected disconnected : ConnectionState

pub data ReceiveControl : Type 0 where
  active paused do_not_disturb manual_checkpoint : ReceiveControl

-- `wake_proven` is `wakeProbe?.proven`.
pub record RoutingInputs : Type 0 where
  pub readiness : Readiness
  pub connection_state : ConnectionState
  pub expired : Bool
  pub wake_proven : Option Bool
  pub auto_delivery_enabled : Option Bool
  pub receive_control : Option ReceiveControl

abbrev is_manual : Option ReceiveControl → Bool
is_manual (some manual_checkpoint) = true
is_manual _ = false

abbrev is_disconnected : ConnectionState → Bool
is_disconnected disconnected = true
is_disconnected connected = false

-- The tests on `readiness`, in the source's order, once the session is neither expired nor cut
-- off; `suppressed` is `autoDeliveryEnabled === false`.
unfoldable pub class_of_readiness :
    Readiness → Bool → Option ReceiveControl → Option Bool → RoutingClass
class_of_readiness incompatible suppressed control probe = unavailable
class_of_readiness Readiness.disconnected suppressed control probe = unavailable
class_of_readiness initializing suppressed control probe = pending_activation
class_of_readiness degraded_ack_unavailable suppressed control probe = unavailable
class_of_readiness degraded_hook_unavailable suppressed control probe = unavailable
class_of_readiness Readiness.ready_live suppressed control probe =
    if suppressed
    then (if is_manual control then degraded_checkpoint_only else unavailable)
    else ready_live
class_of_readiness ready_checkpoint suppressed control probe =
    if suppressed
    then (if is_manual control then degraded_checkpoint_only else unavailable)
    else (if hint_is probe true then ready_wakeable else degraded_checkpoint_only)

unfoldable pub derive_routing_class : RoutingInputs → RoutingClass
unfolding class_of_readiness
derive_routing_class i =
    if i.expired || is_disconnected i.connection_state
    then unavailable
    else class_of_readiness i.readiness (hint_is i.auto_delivery_enabled false) i.receive_control
        i.wake_proven

unfoldable pub is_autonomously_routable : RoutingClass → Bool
is_autonomously_routable ready_live = true
is_autonomously_routable ready_wakeable = true
is_autonomously_routable _ = false

unfoldable pub has_consumption_path : RoutingClass → Bool
has_consumption_path ready_live = true
has_consumption_path ready_wakeable = true
has_consumption_path degraded_checkpoint_only = true
has_consumption_path _ = false

-- A session is routed to autonomously exactly when it is connected, not expired, its automatic
-- delivery is not switched off, and it is live or ready at a checkpoint with a proven wake.
pub is_autonomously_routable_iff :
    (i : RoutingInputs)
    → (is_autonomously_routable (derive_routing_class i) ≡ true) ↔ (
        (i.expired ≡ false)
        × (i.connection_state ≡ connected)
        × (i.auto_delivery_enabled ≢ some false)
        × ((i.readiness ≡ Readiness.ready_live)
            ⊎ ((i.readiness ≡ ready_checkpoint) × (i.wake_proven ≡ some true))))
unfolding derive_routing_class is_autonomously_routable
is_autonomously_routable_iff i =
    (λ e. (ground arith, ground arith, λ a. ground arith, ground arith), λ e. ground arith)

-- Every class that is routed to autonomously has a consumption path, and a session with one is
-- accepting injections, connected and not expired.
pub has_consumption_path_sound :
    (i : RoutingInputs)
    → (is_autonomously_routable (derive_routing_class i) ≡ true
        → has_consumption_path (derive_routing_class i) ≡ true)
      × (has_consumption_path (derive_routing_class i) ≡ true
          → (Readiness.accepts_injection i.readiness ≡ true)
            × (i.connection_state ≡ connected)
            × (i.expired ≡ false))
unfolding derive_routing_class is_autonomously_routable has_consumption_path
    Readiness.accepts_injection
has_consumption_path_sound i = (λ e. ground arith, λ e. (ground arith, ground arith, ground arith))

pub data DeliverySignal : Type 0 where
  queued wake_requested wake_failed injected acknowledged replied failed expired : DeliverySignal

pub data WakeOutcome : Type 0 where
  requested accepted failed none_recorded : WakeOutcome

abbrev wake_signal : WakeOutcome → DeliverySignal
wake_signal WakeOutcome.failed = wake_failed
wake_signal requested = wake_requested
wake_signal WakeOutcome.accepted = wake_requested
wake_signal none_recorded = DeliverySignal.queued

unfoldable pub derive_delivery_signal : DeliveryState → WakeOutcome → DeliverySignal
derive_delivery_signal DeliveryState.queued w = wake_signal w
derive_delivery_signal DeliveryState.dispatching w = wake_signal w
derive_delivery_signal DeliveryState.retry_wait w = wake_signal w
derive_delivery_signal DeliveryState.transport_written w = injected
derive_delivery_signal DeliveryState.accepted w = acknowledged
derive_delivery_signal DeliveryState.completed w = replied
derive_delivery_signal DeliveryState.rejected w = DeliverySignal.failed
derive_delivery_signal DeliveryState.dead_letter w = DeliverySignal.failed
derive_delivery_signal DeliveryState.cancelled w = DeliverySignal.failed
derive_delivery_signal DeliveryState.expired w = DeliverySignal.expired

-- Whatever a wake attempt reported, a sender is told `injected`, `acknowledged`, `replied` or
-- `expired` exactly in the delivery state of that meaning.
pub derive_delivery_signal_iff :
    (s : DeliveryState) (w : WakeOutcome)
    → ((derive_delivery_signal s w ≡ injected) ↔ (s ≡ DeliveryState.transport_written))
      × ((derive_delivery_signal s w ≡ acknowledged) ↔ (s ≡ DeliveryState.accepted))
      × ((derive_delivery_signal s w ≡ replied) ↔ (s ≡ DeliveryState.completed))
      × ((derive_delivery_signal s w ≡ DeliverySignal.expired) ↔ (s ≡ DeliveryState.expired))
unfolding derive_delivery_signal
derive_delivery_signal_iff s w = (
  (λ e. ground arith, λ e. ground arith),
  (λ e. ground arith, λ e. ground arith),
  (λ e. ground arith, λ e. ground arith),
  (λ e. ground arith, λ e. ground arith),
)
