-- ===== src/Adapter/Capabilities.antt =====
-- src/adapter/capabilities.ts: declared, detected and verified capabilities. The groups `lifecycle`
-- and `execution`, which are copied and never read, are left out.
use xbus.Base.{ℕ, Bool, true, false, leb, if◌then◌else◌}
use xbus.Identity.Components.{ComponentRole}

pub data CapabilityState : Type 0 where
  unsupported declared detected verified : CapabilityState

pub record ReceiveCapabilities : Type 0 where
  pub manual_pull : CapabilityState
  pub lifecycle_checkpoint : CapabilityState
  pub live_push : CapabilityState
  pub background_wake : CapabilityState
  pub idle_wake : CapabilityState

pub record MessagingCapabilities : Type 0 where
  pub acknowledgements : CapabilityState
  pub correlated_replies : CapabilityState
  pub progress_events : CapabilityState
  pub cancellation : CapabilityState
  pub streaming : CapabilityState
  pub structured_payloads : CapabilityState
  pub attachments : CapabilityState

pub record AgentCapabilities : Type 0 where
  pub receive : ReceiveCapabilities
  pub messaging : MessagingCapabilities

unfoldable pub rank : CapabilityState → ℕ
rank unsupported = 0
rank declared = 1
rank detected = 2
rank verified = 3

unfoldable pub is_verified : CapabilityState → Bool
is_verified verified = true
is_verified _ = false

unfoldable pub is_claimed : CapabilityState → Bool
unfolding rank
is_claimed s = leb (rank declared) (rank s)

pub record VerifiedReceive : Type 0 where
  pub manual_pull : Bool
  pub lifecycle_checkpoint : Bool
  pub live_push : Bool

pub record VerifiedMessaging : Type 0 where
  pub acknowledgements : Bool
  pub correlated_replies : Bool

pub record VerifiedCapabilities : Type 0 where
  pub role : ComponentRole
  pub receive : VerifiedReceive
  pub messaging : VerifiedMessaging

unfoldable pub to_verified : ComponentRole → AgentCapabilities → VerifiedCapabilities
unfolding is_verified
to_verified role caps = record {
  role = role;
  receive = record {
    manual_pull = is_verified caps.receive.manual_pull;
    lifecycle_checkpoint = is_verified caps.receive.lifecycle_checkpoint;
    live_push = is_verified caps.receive.live_push;
  };
  messaging = record {
    acknowledgements = is_verified caps.messaging.acknowledgements;
    correlated_replies = is_verified caps.messaging.correlated_replies;
  };
}

pub record ConfirmEvidence : Type 0 where
  pub manual_receive_verified : Bool
  pub checkpoint_receive_verified : Bool
  pub live_receive_verified : Bool
  pub ack_reply_verified : Bool

unfoldable pub clamp : CapabilityState → CapabilityState
clamp verified = declared
clamp s = s

unfoldable pub raise : CapabilityState → Bool → CapabilityState
unfolding clamp
raise s proven = if proven then verified else clamp s

unfoldable pub confirm_capabilities : AgentCapabilities → ConfirmEvidence → AgentCapabilities
unfolding raise
confirm_capabilities caps evidence = record {
  receive = record {
    manual_pull = raise caps.receive.manual_pull evidence.manual_receive_verified;
    lifecycle_checkpoint =
        raise caps.receive.lifecycle_checkpoint evidence.checkpoint_receive_verified;
    live_push = raise caps.receive.live_push evidence.live_receive_verified;
    background_wake = clamp caps.receive.background_wake;
    idle_wake = clamp caps.receive.idle_wake;
  };
  messaging = record {
    acknowledgements = raise caps.messaging.acknowledgements evidence.ack_reply_verified;
    correlated_replies = raise caps.messaging.correlated_replies evidence.ack_reply_verified;
    progress_events = clamp caps.messaging.progress_events;
    cancellation = clamp caps.messaging.cancellation;
    streaming = clamp caps.messaging.streaming;
    structured_payloads = clamp caps.messaging.structured_payloads;
    attachments = clamp caps.messaging.attachments;
  };
}

unfoldable pub empty_capabilities : AgentCapabilities
empty_capabilities = record {
  receive = record {
    manual_pull = unsupported;
    lifecycle_checkpoint = unsupported;
    live_push = unsupported;
    background_wake = unsupported;
    idle_wake = unsupported;
  };
  messaging = record {
    acknowledgements = unsupported;
    correlated_replies = unsupported;
    progress_events = unsupported;
    cancellation = unsupported;
    streaming = unsupported;
    structured_payloads = unsupported;
    attachments = unsupported;
  };
}
