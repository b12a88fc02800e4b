-- ===== src/Adapter/Evidence.antt =====
-- src/adapter/evidence.ts: evidence, its provenance, and the support that it justifies.
use xbus.Base.{ℕ, Bool, true, false, not, List, Option, none, some, String, leb, if◌then◌else◌}
use xbus.Adapter.Capabilities.{VerifiedCapabilities}
use xbus.Adapter.Tier.{SupportTier, ValidationEvidence, calculate_maximum_tier}

pub data ValidationLevel : Type 0 where
  unvalidated conformance_tested real_runtime_validated supported : ValidationLevel

pub data EvidenceSource : Type 0 where
  unproven fake_runtime real_runtime real_runtime_signed_off : EvidenceSource

pub record Durability : Type 0 where
  pub broker_restart : Bool
  pub adapter_restart : Bool
  pub queued_delivery_preserved : Bool

pub record Security : Type 0 where
  pub alias_fencing : Bool
  pub secret_redaction : Bool
  pub telemetry_redaction : Bool
  pub packaged_runtime : Bool

-- `runtimeEvidence`, which is written and never read, is left out.
pub record StructuredEvidence : Type 0 where
  pub conformance_version : ℕ
  pub adapter_id : String
  pub adapter_version : String
  pub source : EvidenceSource
  pub capabilities_verified : List String
  pub conformance_cases_passed : List String
  pub durability : Durability
  pub security : Security

pub record AwardedSupport : Type 0 where
  pub maximum_delivery_tier : SupportTier
  pub validation_level : ValidationLevel

unfoldable pub max_level_for_source : EvidenceSource → ValidationLevel
max_level_for_source unproven = unvalidated
max_level_for_source fake_runtime = conformance_tested
max_level_for_source real_runtime = real_runtime_validated
max_level_for_source real_runtime_signed_off = supported

-- `VALIDATION_LEVELS.indexOf`.
unfoldable pub level_rank : ValidationLevel → ℕ
level_rank unvalidated = 0
level_rank conformance_tested = 1
level_rank real_runtime_validated = 2
level_rank supported = 3

abbrev is_unproven : EvidenceSource → Bool
is_unproven unproven = true
is_unproven _ = false

unfoldable pub derive_validation_level : StructuredEvidence → Bool → ValidationLevel
unfolding max_level_for_source level_rank
derive_validation_level ev full_conformance_passed =
    let ceiling = max_level_for_source ev.source in
    let claimed =
      if is_unproven ev.source
      then unvalidated
      else (if not full_conformance_passed then unvalidated else ceiling) in
    if leb (level_rank claimed) (level_rank ceiling) then claimed else ceiling

unfoldable pub compute_awarded_support :
    VerifiedCapabilities → ValidationEvidence → StructuredEvidence → Bool → AwardedSupport
unfolding calculate_maximum_tier derive_validation_level
compute_awarded_support c runtime structured passed = record {
  maximum_delivery_tier = calculate_maximum_tier c runtime;
  validation_level = derive_validation_level structured passed;
}

-- `Partial<ValidationEvidence>`.
pub record EvidenceFlags : Type 0 where
  pub booted_and_registered : Option Bool
  pub send_verified : Option Bool
  pub manual_receive_verified : Option Bool
  pub checkpoint_receive_verified : Option Bool
  pub ack_reply_verified : Option Bool
  pub live_receive_verified : Option Bool
  pub full_runtime_validation : Option Bool

abbrev or_false : Option Bool → Bool
or_false none = false
or_false (some b) = b

abbrev pub is_real : EvidenceSource → Bool
is_real real_runtime = true
is_real real_runtime_signed_off = true
is_real _ = false

unfoldable pub build_validation_evidence : EvidenceSource → EvidenceFlags → ValidationEvidence
build_validation_evidence source flags = record {
  booted_and_registered = or_false flags.booted_and_registered;
  send_verified = or_false flags.send_verified;
  manual_receive_verified = or_false flags.manual_receive_verified;
  checkpoint_receive_verified = or_false flags.checkpoint_receive_verified;
  ack_reply_verified = or_false flags.ack_reply_verified;
  live_receive_verified = if is_real source then or_false flags.live_receive_verified else false;
  full_runtime_validation =
      if is_real source then or_false flags.full_runtime_validation else false;
}
