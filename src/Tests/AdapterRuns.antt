-- ===== src/Tests/AdapterRuns.antt =====
-- Runs of src/adapter and src/adapter-broker on one adapter.
use xbus.Base.{◌≡◌, ◌≤◌, refl, ◌↔◌, true, List, [], ◌∷◌, Option, none, some, String}
use xbus.Protocol.Errors.{ok, err, protocol_violation}
use xbus.Identity.Components.{hook}
use xbus.Adapter.Capabilities.{CapabilityState, verified}
use xbus.Adapter.Tier.{
  t3, calculate_maximum_tier, calculate_maximum_tier-Earned, is_within_ceiling, Earned, rank,
}
use xbus.Adapter.Evidence.{level_rank}
use xbus.Adapter.Registry.{
  BrokerTrustedEvidence, EvidenceQuery, conformance_runner, resolve, IsBound, get_evidence,
  evidence_key, resolve-IsBound,
}
use xbus.Adapter.Registration.{AdapterRegistrationDeclaration, evaluate_registration, evidence_of}
use xbus.Adapter.Awards.{
  granted, IsWellFormed, IsBacked, evaluate_registration-granted_iff, evaluate_registration_capped,
}

abbrev boast : Option CapabilityState
boast = some verified

-- An adapter that says of everything that it is verified.
abbrev declaration : AdapterRegistrationDeclaration
declaration = record {
  adapter_id = "cli";
  adapter_version = "1";
  role = some hook;
  declared_capabilities = some (record {
    receive = some (record {
      manual_pull = boast;
      lifecycle_checkpoint = boast;
      live_push = boast;
      background_wake = boast;
      idle_wake = boast;
    });
    messaging = some (record {
      acknowledgements = boast;
      correlated_replies = boast;
      progress_events = boast;
      cancellation = boast;
      streaming = boast;
      structured_payloads = boast;
      attachments = boast;
    });
  });
}

-- A conformance run that passed in full.
abbrev evidence : BrokerTrustedEvidence
evidence = record {
  source = conformance_runner;
  adapter_id = "cli";
  adapter_version = "1";
  role = hook;
  build_id = none;
  capabilities = record {
    send_verified = true;
    manual_receive_verified = true;
    checkpoint_receive_verified = true;
    live_receive_verified = true;
    ack_reply_verified = true;
  };
  durability = record {
    broker_restart_verified = true;
    reconnect_verified = true;
    queued_delivery_verified = true;
  };
  security = record {
    fencing_verified = true;
    redaction_verified = some true;
    secret_redaction_verified = none;
    telemetry_redaction_verified = none;
    packaged_runtime_verified = true;
  };
  conformance_version = some 1;
}

abbrev query : EvidenceQuery
query = record { adapter_id = "cli"; adapter_version = "1"; role = hook; build_id = none }

abbrev registry : List (String × BrokerTrustedEvidence)
registry = ("cli :: 1 :: hook", evidence) ∷ []

resolve-IsBound_example :
    (get_evidence (evidence_key "cli" "1" hook) registry ≡ some evidence) × IsBound query evidence
unfolding resolve
resolve-IsBound_example = resolve-IsBound query registry evidence refl

boast_refused :
    evaluate_registration "live" (some declaration) hook (some evidence) ≡ err protocol_violation
unfolding evaluate_registration
boast_refused = refl

evaluate_registration-granted_iff_example :
    (evaluate_registration "hook_checkpoint" (some declaration) hook (some evidence)
      ≡ ok (some (granted hook (some evidence))))
    ↔ (IsWellFormed declaration hook
        × IsBacked "hook_checkpoint" hook (some evidence)
        × (granted hook (some evidence) ≡ granted hook (some evidence)))
evaluate_registration-granted_iff_example =
    evaluate_registration-granted_iff "hook_checkpoint" declaration hook (some evidence)
      (granted hook (some evidence))

evaluate_registration_capped_example :
    (rank (granted hook (some evidence)).awarded.maximum_delivery_tier ≤ 3)
    × (level_rank (granted hook (some evidence)).awarded.validation_level ≤ 1)
unfolding evaluate_registration
evaluate_registration_capped_example =
    evaluate_registration_capped "hook_checkpoint" declaration hook (some evidence)
      (granted hook (some evidence)) refl refl

calculate_maximum_tier-Earned_example :
    let c = (granted hook (some evidence)).confirmed_verified in
    let e = evidence_of (some evidence) in
    (is_within_ceiling t3 (calculate_maximum_tier c e) ≡ true) ↔ Earned t3 c e
calculate_maximum_tier-Earned_example =
    calculate_maximum_tier-Earned t3 (granted hook (some evidence)).confirmed_verified
      (evidence_of (some evidence))
