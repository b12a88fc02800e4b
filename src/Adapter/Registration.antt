-- ===== src/Adapter/Registration.antt =====
-- src/adapter-broker/enforce.ts: the broker's judgement of an adapter's registration. A declaration
-- is not trusted: its role may be none, a group of capabilities absent, a leaf no state.
use text.Mathlib.Text.{◌==◌ as str_eq}
use xbus.Base.{
  Bool, true, false, ◌&&◌, ◌||◌, [], Option, none, some, String, ◌==◌, if◌then◌else◌, is_some,
}
use xbus.Protocol.Errors.{Result, ok, err, protocol_violation, forbidden_role}
use xbus.Identity.Components.{ComponentRole}
use xbus.Adapter.Capabilities.{
  CapabilityState, AgentCapabilities, VerifiedCapabilities, VerifiedReceive, ConfirmEvidence,
  confirm_capabilities, to_verified,
}
use xbus.Adapter.Tier.{ValidationEvidence, calculate_maximum_tier, rank}
use xbus.Adapter.Evidence.{
  AwardedSupport, EvidenceSource, unproven, fake_runtime, real_runtime, real_runtime_signed_off,
  StructuredEvidence, EvidenceFlags, build_validation_evidence, compute_awarded_support,
}
use xbus.Adapter.Registry.{
  BrokerTrustedEvidence, TrustedEvidenceSource, no_evidence, conformance_runner,
  real_runtime_validation, policy_signed_off, same_role,
}

pub record DeclaredReceive : Type 0 where
  pub manual_pull : Option CapabilityState
  pub lifecycle_checkpoint : Option CapabilityState
  pub live_push : Option CapabilityState
  pub background_wake : Option CapabilityState
  pub idle_wake : Option CapabilityState

pub record DeclaredMessaging : Type 0 where
  pub acknowledgements : Option CapabilityState
  pub correlated_replies : Option CapabilityState
  pub progress_events : Option CapabilityState
  pub cancellation : Option CapabilityState
  pub streaming : Option CapabilityState
  pub structured_payloads : Option CapabilityState
  pub attachments : Option CapabilityState

pub record DeclaredCapabilities : Type 0 where
  pub receive : Option DeclaredReceive
  pub messaging : Option DeclaredMessaging

pub record AdapterRegistrationDeclaration : Type 0 where
  pub adapter_id : String
  pub adapter_version : String
  pub role : Option ComponentRole
  pub declared_capabilities : Option DeclaredCapabilities

pub record EnforcementResult : Type 0 where
  pub awarded : AwardedSupport
  pub confirmed_verified : VerifiedCapabilities

abbrev pub receive_is_whole : DeclaredReceive → Bool
receive_is_whole g =
    is_some g.manual_pull
    && (is_some g.lifecycle_checkpoint
        && (is_some g.live_push && (is_some g.background_wake && is_some g.idle_wake)))

abbrev pub messaging_is_whole : DeclaredMessaging → Bool
messaging_is_whole g =
    is_some g.acknowledgements
    && (is_some g.correlated_replies
        && (is_some g.progress_events
            && (is_some g.cancellation
                && (is_some g.streaming
                    && (is_some g.structured_payloads && is_some g.attachments)))))

abbrev state_of : Option CapabilityState → CapabilityState
state_of none = CapabilityState.unsupported
state_of (some s) = s

abbrev pub typed : DeclaredReceive → DeclaredMessaging → AgentCapabilities
typed r m = record {
  receive = record {
    manual_pull = state_of r.manual_pull;
    lifecycle_checkpoint = state_of r.lifecycle_checkpoint;
    live_push = state_of r.live_push;
    background_wake = state_of r.background_wake;
    idle_wake = state_of r.idle_wake;
  };
  messaging = record {
    acknowledgements = state_of m.acknowledgements;
    correlated_replies = state_of m.correlated_replies;
    progress_events = state_of m.progress_events;
    cancellation = state_of m.cancellation;
    streaming = state_of m.streaming;
    structured_payloads = state_of m.structured_payloads;
    attachments = state_of m.attachments;
  };
}

abbrev pub whole_groups :
    Option DeclaredReceive → Option DeclaredMessaging → Result AgentCapabilities
whole_groups none m = err protocol_violation
whole_groups (some r) none = err protocol_violation
whole_groups (some r) (some m) =
    if receive_is_whole r && messaging_is_whole m then ok (typed r m) else err protocol_violation

-- `assertDeclaredCapabilitiesShape`, with the capabilities that it lets through.
unfoldable pub assert_declared_capabilities_shape :
    Option DeclaredCapabilities → Result AgentCapabilities
assert_declared_capabilities_shape none = err protocol_violation
assert_declared_capabilities_shape (some caps) = whole_groups caps.receive caps.messaging

pub data RequiredCapability : Type 0 where
  manual_pull lifecycle_checkpoint live_push nothing : RequiredCapability

unfoldable pub mode_requires : String → RequiredCapability
mode_requires m =
    if str_eq m "manual_pull"
    then manual_pull
    else (if str_eq m "hook_checkpoint"
        then lifecycle_checkpoint
        else (if str_eq m "live" || str_eq m "live_push" then live_push else nothing))

abbrev pub is_backed : RequiredCapability → VerifiedReceive → Bool
is_backed manual_pull v = v.manual_pull
is_backed lifecycle_checkpoint v = v.lifecycle_checkpoint
is_backed live_push v = v.live_push
is_backed nothing v = true

unfoldable pub to_evidence_source : TrustedEvidenceSource → EvidenceSource
to_evidence_source no_evidence = unproven
to_evidence_source conformance_runner = fake_runtime
to_evidence_source real_runtime_validation = real_runtime
to_evidence_source policy_signed_off = real_runtime_signed_off

-- `a ?? b ?? false`.
abbrev first_flag : Option Bool → Option Bool → Bool
first_flag (some a) b = a
first_flag none (some b) = b
first_flag none none = false

unfoldable pub secret_redaction_of : BrokerTrustedEvidence → Bool
secret_redaction_of ev =
    first_flag ev.security.secret_redaction_verified ev.security.redaction_verified

unfoldable pub telemetry_redaction_of : BrokerTrustedEvidence → Bool
telemetry_redaction_of ev =
    first_flag ev.security.telemetry_redaction_verified ev.security.redaction_verified

abbrev pub full_runtime : BrokerTrustedEvidence → Bool
full_runtime ev =
    ev.durability.broker_restart_verified
    && (ev.durability.reconnect_verified
        && (ev.durability.queued_delivery_verified
            && (ev.security.fencing_verified
                && (secret_redaction_of ev
                    && (telemetry_redaction_of ev && ev.security.packaged_runtime_verified)))))

unfoldable pub trusted_to_validation_evidence : BrokerTrustedEvidence → ValidationEvidence
unfolding to_evidence_source secret_redaction_of telemetry_redaction_of build_validation_evidence
trusted_to_validation_evidence ev =
    build_validation_evidence (to_evidence_source ev.source) (record {
      booted_and_registered = some (
          ev.capabilities.send_verified
          || (ev.capabilities.checkpoint_receive_verified
              || ev.capabilities.manual_receive_verified));
      send_verified = some ev.capabilities.send_verified;
      manual_receive_verified = some ev.capabilities.manual_receive_verified;
      checkpoint_receive_verified = some ev.capabilities.checkpoint_receive_verified;
      ack_reply_verified = some ev.capabilities.ack_reply_verified;
      live_receive_verified = some ev.capabilities.live_receive_verified;
      full_runtime_validation = some (full_runtime ev);
    })

abbrev pub no_flags : EvidenceFlags
no_flags = record {
  booted_and_registered = none;
  send_verified = none;
  manual_receive_verified = none;
  checkpoint_receive_verified = none;
  ack_reply_verified = none;
  live_receive_verified = none;
  full_runtime_validation = none;
}

-- Without evidence of the broker's nothing is verified.
unfoldable pub evidence_of : Option BrokerTrustedEvidence → ValidationEvidence
unfolding trusted_to_validation_evidence
evidence_of none = build_validation_evidence unproven no_flags
evidence_of (some ev) = trusted_to_validation_evidence ev

unfoldable pub source_of : Option BrokerTrustedEvidence → EvidenceSource
unfolding to_evidence_source
source_of none = unproven
source_of (some ev) = to_evidence_source ev.source

abbrev pub confirm_evidence : ValidationEvidence → ConfirmEvidence
confirm_evidence e = record {
  manual_receive_verified = e.manual_receive_verified;
  checkpoint_receive_verified = e.checkpoint_receive_verified;
  live_receive_verified = e.live_receive_verified;
  ack_reply_verified = e.ack_reply_verified;
}

abbrev pub has_source : EvidenceSource → Bool
has_source unproven = false
has_source _ = true

-- Without evidence of the broker's the source is none.
unfoldable pub full_conformance_passed : EvidenceSource → ValidationEvidence → Bool
full_conformance_passed s e =
    has_source s
    && (e.full_runtime_validation
        || (e.checkpoint_receive_verified || (e.manual_receive_verified || e.send_verified)))

unfoldable pub structured_of :
    AdapterRegistrationDeclaration → Option BrokerTrustedEvidence → StructuredEvidence
unfolding source_of secret_redaction_of telemetry_redaction_of
structured_of d none = record {
  conformance_version = 0;
  adapter_id = d.adapter_id;
  adapter_version = d.adapter_version;
  source = unproven;
  capabilities_verified = [];
  conformance_cases_passed = [];
  durability = record {
    broker_restart = false;
    adapter_restart = false;
    queued_delivery_preserved = false;
  };
  security = record {
    alias_fencing = false;
    secret_redaction = false;
    telemetry_redaction = false;
    packaged_runtime = false;
  };
}
structured_of d (some ev) = record {
  conformance_version = elim ev.conformance_version [ none ↦ 0 | some v ↦ v ];
  adapter_id = d.adapter_id;
  adapter_version = d.adapter_version;
  source = to_evidence_source ev.source;
  capabilities_verified = [];
  conformance_cases_passed = [];
  durability = record {
    broker_restart = ev.durability.broker_restart_verified;
    adapter_restart = ev.durability.reconnect_verified;
    queued_delivery_preserved = ev.durability.queued_delivery_verified;
  };
  security = record {
    alias_fencing = ev.security.fencing_verified;
    secret_redaction = secret_redaction_of ev;
    telemetry_redaction = telemetry_redaction_of ev;
    packaged_runtime = ev.security.packaged_runtime_verified;
  };
}

-- What the broker has confirmed of the declared capabilities.
unfoldable pub confirmed :
    ComponentRole → AgentCapabilities → Option BrokerTrustedEvidence → VerifiedCapabilities
unfolding evidence_of confirm_capabilities to_verified
confirmed role caps trusted =
    to_verified role (confirm_capabilities caps (confirm_evidence (evidence_of trusted)))

unfoldable pub award :
    AdapterRegistrationDeclaration
    → VerifiedCapabilities
    → Option BrokerTrustedEvidence
    → AwardedSupport
unfolding evidence_of compute_awarded_support full_conformance_passed structured_of source_of
award d verified trusted =
    compute_awarded_support verified (evidence_of trusted) (structured_of d trusted)
      (full_conformance_passed (source_of trusted) (evidence_of trusted))

-- The award is checked once more against the ceiling.
abbrev pub checked_award :
    AwardedSupport → VerifiedCapabilities → ValidationEvidence → Result (Option EnforcementResult)
checked_award awarded verified evidence =
    if rank awarded.maximum_delivery_tier == rank (calculate_maximum_tier verified evidence)
    then ok (some (record { awarded = awarded; confirmed_verified = verified }))
    else err protocol_violation

abbrev pub evaluate_capabilities :
    String
    → AdapterRegistrationDeclaration
    → ComponentRole
    → Option BrokerTrustedEvidence
    → Result AgentCapabilities
    → Result (Option EnforcementResult)
evaluate_capabilities mode d role trusted (err e) = err e
evaluate_capabilities mode d role trusted (ok caps) =
    let verified = confirmed role caps trusted in
    if is_backed (mode_requires mode) verified.receive
    then checked_award (award d verified trusted) verified (evidence_of trusted)
    else err protocol_violation

abbrev pub evaluate_role :
    String
    → AdapterRegistrationDeclaration
    → ComponentRole
    → Option BrokerTrustedEvidence
    → Option ComponentRole
    → Result (Option EnforcementResult)
evaluate_role mode d authority trusted none = err protocol_violation
evaluate_role mode d authority trusted (some role) =
    if same_role role authority
    then evaluate_capabilities mode d role trusted
        (assert_declared_capabilities_shape d.declared_capabilities)
    else err forbidden_role

-- A registration without a declaration is the legacy path: no result and no error.
unfoldable pub evaluate_registration :
    String
    → Option AdapterRegistrationDeclaration
    → ComponentRole
    → Option BrokerTrustedEvidence
    → Result (Option EnforcementResult)
unfolding confirmed award evidence_of calculate_maximum_tier rank mode_requires
    assert_declared_capabilities_shape
evaluate_registration mode none authority trusted = ok none
evaluate_registration mode (some d) authority trusted =
    evaluate_role mode d authority trusted d.role
