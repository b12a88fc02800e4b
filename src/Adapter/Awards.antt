-- ===== src/Adapter/Awards.antt =====
-- src/adapter-broker/enforce.ts with src/adapter: what an award rests on.
use xbus.Base.{
  ◌≡◌, ◌≤◌, ◌↔◌, refl, ap, subst, inl, inr, Bool, true, false, Option, none, some, String, arith,
  ==_refl, if◌then◌else◌, Bool-cases,
}
use xbus.Protocol.Errors.{Result, ok, err, protocol_violation, err-ne-ok}
use xbus.Identity.Components.{ComponentRole}
use xbus.Adapter.Capabilities.{
  CapabilityState, AgentCapabilities, VerifiedCapabilities, is_verified, raise,
  confirm_capabilities, to_verified,
}
use xbus.Adapter.Tier.{ValidationEvidence, calculate_maximum_tier, rank}
use xbus.Adapter.Evidence.{
  EvidenceSource, is_real, build_validation_evidence, level_rank, max_level_for_source,
  derive_validation_level, unvalidated, compute_awarded_support, StructuredEvidence,
}
use xbus.Adapter.Registry.{BrokerTrustedEvidence, same_role, same_role_sound, role_index}
use xbus.Adapter.Registration.{
  AdapterRegistrationDeclaration, EnforcementResult, evaluate_registration, evaluate_role,
  confirmed, evaluate_capabilities, award, is_backed, mode_requires, evidence_of, source_of,
  assert_declared_capabilities_shape, structured_of, full_conformance_passed,
  trusted_to_validation_evidence,
}

-- Only evidence verifies: what an adapter says of a capability is no part of it.
raise-is_verified : (s : CapabilityState) (proven : Bool) → is_verified (raise s proven) ≡ proven
unfolding is_verified raise
raise-is_verified s proven = ground arith

-- The capabilities that the broker's evidence alone verifies.
abbrev pub proven_capabilities : ComponentRole → ValidationEvidence → VerifiedCapabilities
proven_capabilities role e = record {
  role = role;
  receive = record {
    manual_pull = e.manual_receive_verified;
    lifecycle_checkpoint = e.checkpoint_receive_verified;
    live_push = e.live_receive_verified;
  };
  messaging = record {
    acknowledgements = e.ack_reply_verified;
    correlated_replies = e.ack_reply_verified;
  };
}

confirmed-proven_capabilities :
    (role : ComponentRole) (caps : AgentCapabilities) (trusted : Option BrokerTrustedEvidence)
    → confirmed role caps trusted ≡ proven_capabilities role (evidence_of trusted)
unfolding confirmed confirm_capabilities to_verified
confirmed-proven_capabilities role caps trusted =
    let e = evidence_of trusted in
    rw
      (
        raise-is_verified caps.receive.manual_pull e.manual_receive_verified,
        raise-is_verified caps.receive.lifecycle_checkpoint e.checkpoint_receive_verified,
        raise-is_verified caps.receive.live_push e.live_receive_verified,
        raise-is_verified caps.messaging.acknowledgements e.ack_reply_verified,
        raise-is_verified caps.messaging.correlated_replies e.ack_reply_verified,
      )
      refl

-- The level follows from the source of the evidence and the pass.
derive_level :
    (st : StructuredEvidence) (passed : Bool)
    → derive_validation_level st passed
      ≡ (if passed then max_level_for_source st.source else unvalidated)
unfolding derive_validation_level max_level_for_source level_rank
derive_level st passed = ground arith

-- What a role is granted, by the broker's evidence and nothing else.
abbrev pub granted : ComponentRole → Option BrokerTrustedEvidence → EnforcementResult
granted role trusted =
    let e = evidence_of trusted in
    let proven = proven_capabilities role e in
    record {
      awarded = record {
        maximum_delivery_tier = calculate_maximum_tier proven e;
        validation_level =
            if full_conformance_passed (source_of trusted) e
            then max_level_for_source (source_of trusted)
            else unvalidated;
      };
      confirmed_verified = proven;
    }

structured_of-source :
    (d : AdapterRegistrationDeclaration) (trusted : Option BrokerTrustedEvidence)
    → (structured_of d trusted).source ≡ source_of trusted
unfolding structured_of source_of
structured_of-source d none = refl
structured_of-source d (some ev) = refl

award-granted :
    (d : AdapterRegistrationDeclaration) (role : ComponentRole)
    (trusted : Option BrokerTrustedEvidence)
    → award d (proven_capabilities role (evidence_of trusted)) trusted
      ≡ (granted role trusted).awarded
unfolding award compute_awarded_support
award-granted d role trusted =
    let passed = full_conformance_passed (source_of trusted) (evidence_of trusted) in
    rw (derive_level (structured_of d trusted) passed, structured_of-source d trusted) refl

-- A declaration of the right role and shape is judged by the mode and the broker's evidence.
evaluate_capabilities-granted :
    (mode : String) (d : AdapterRegistrationDeclaration) (role : ComponentRole)
    (trusted : Option BrokerTrustedEvidence) (caps : AgentCapabilities)
    → evaluate_capabilities mode d role trusted (ok caps) ≡ (
        if is_backed (mode_requires mode) (granted role trusted).confirmed_verified.receive
        then ok (some (granted role trusted))
        else err protocol_violation)
evaluate_capabilities-granted mode d role trusted caps =
    rw
      (
        confirmed-proven_capabilities role caps trusted,
        award-granted d role trusted,
        ==_refl (rank (granted role trusted).awarded.maximum_delivery_tier),
      )
      refl

-- The declaration passes the checks that come before the judgement.
abbrev pub IsWellFormed : AdapterRegistrationDeclaration → ComponentRole → Type 0
IsWellFormed d authority =
    (d.role ≡ some authority)
    × ((caps : AgentCapabilities) × (assert_declared_capabilities_shape d.declared_capabilities
          ≡ ok caps))

abbrev pub IsBacked : String → ComponentRole → Option BrokerTrustedEvidence → Type 0
IsBacked mode role trusted =
    is_backed (mode_requires mode) (granted role trusted).confirmed_verified.receive ≡ true

judged-ok :
    (b : Bool) (g r : EnforcementResult)
    → ◌≡◌ {A = Result (Option EnforcementResult)}
        (if b then ok (some g) else err protocol_violation)
        (ok (some r))
    → (b ≡ true) × (r ≡ g)
judged-ok true g r h = (refl, cc)
judged-ok false g r h = absurd (err-ne-ok h)

capabilities-ok :
    (mode : String) (d : AdapterRegistrationDeclaration) (role : ComponentRole)
    (trusted : Option BrokerTrustedEvidence) (o : Result AgentCapabilities) (r : EnforcementResult)
    → evaluate_capabilities mode d role trusted o ≡ ok (some r)
    → ((caps : AgentCapabilities) × (o ≡ ok caps))
      × IsBacked mode role trusted
      × (r ≡ granted role trusted)
capabilities-ok mode d role trusted (err e) r h = absurd (err-ne-ok h)
capabilities-ok mode d role trusted (ok caps) r h =
    let out = rw (evaluate_capabilities-granted mode d role trusted caps) at h in
    let both =
      judged-ok (is_backed (mode_requires mode) (granted role trusted).confirmed_verified.receive)
        (granted role trusted) r out in
    ((caps, refl), both.0, both.1)

role-ok :
    (mode : String) (d : AdapterRegistrationDeclaration) (authority : ComponentRole)
    (trusted : Option BrokerTrustedEvidence) (o : Option ComponentRole) (r : EnforcementResult)
    → evaluate_role mode d authority trusted o ≡ ok (some r)
    → (o ≡ some authority)
      × ((caps : AgentCapabilities) × (assert_declared_capabilities_shape d.declared_capabilities
            ≡ ok caps))
      × IsBacked mode authority trusted
      × (r ≡ granted authority trusted)
role-ok mode d authority trusted none r h = absurd (err-ne-ok h)
role-ok mode d authority trusted (some role) r h = elim (Bool-cases (same_role role authority)) [
  | inl e ↦
      let same = same_role_sound role authority e in
      let rest =
        capabilities-ok mode d role trusted
          (assert_declared_capabilities_shape d.declared_capabilities) r (rw e at h) in
      (
        ap some same,
        rest.0,
        subst (λ x. IsBacked mode x trusted) same rest.1,
        subst (λ x. r ≡ granted x trusted) same rest.2,
      )
  | inr e ↦ absurd (err-ne-ok (rw e at h))
]

-- A registration with a declaration is granted exactly if it declares the role that the connection
-- has, its capabilities have the right shape, and the broker's own evidence backs the mode that it
-- asks for. What is granted is computed from that role and that evidence; what the adapter claims
-- is no part of it.
pub evaluate_registration-granted_iff :
    (mode : String) (d : AdapterRegistrationDeclaration) (authority : ComponentRole)
    (trusted : Option BrokerTrustedEvidence) (r : EnforcementResult)
    → (evaluate_registration mode (some d) authority trusted ≡ ok (some r)) ↔ (
        IsWellFormed d authority
        × IsBacked mode authority trusted
        × (r ≡ granted authority trusted))
unfolding evaluate_registration
evaluate_registration-granted_iff mode d authority trusted r = (
  λ h.
      let (role, caps, backed, same) = role-ok mode d authority trusted d.role r h in
      ((role, caps), backed, same),
  λ ((role, (caps, shape)), backed, same).
      rw
        (
          role,
          ==_refl (role_index authority),
          shape,
          evaluate_capabilities-granted mode d authority trusted caps,
          backed,
          same,
        )
        refl,
)

-- Without the live flag a tier is T3 at most.
tier_without_live :
    (c : VerifiedCapabilities) (e : ValidationEvidence)
    → e.live_receive_verified ≡ false
    → rank (calculate_maximum_tier c e) ≤ 3
unfolding calculate_maximum_tier rank
tier_without_live c e h = ground arith

evidence_not_real :
    (trusted : Option BrokerTrustedEvidence)
    → is_real (source_of trusted) ≡ false
    → (evidence_of trusted).live_receive_verified ≡ false
unfolding evidence_of source_of trusted_to_validation_evidence build_validation_evidence
evidence_not_real none h = refl
evidence_not_real (some ev) h = rw h refl

level_not_real :
    (src : EvidenceSource) (passed : Bool)
    → is_real src ≡ false
    → level_rank (if passed then max_level_for_source src else unvalidated) ≤ 1
unfolding level_rank max_level_for_source
level_not_real src passed h = ground arith

-- Where the broker's evidence is not of a real runtime, an adapter is granted no more than T3 and no
-- level above conformance_tested.
pub evaluate_registration_capped :
    (mode : String) (d : AdapterRegistrationDeclaration) (authority : ComponentRole)
    (trusted : Option BrokerTrustedEvidence) (r : EnforcementResult)
    → is_real (source_of trusted) ≡ false
    → evaluate_registration mode (some d) authority trusted ≡ ok (some r)
    → (rank r.awarded.maximum_delivery_tier ≤ 3) × (level_rank r.awarded.validation_level ≤ 1)
evaluate_registration_capped mode d authority trusted r fake h =
    let (form, backed, same) = (evaluate_registration-granted_iff mode d authority trusted r).0 h in
    let e = evidence_of trusted in
    rw same (
      tier_without_live (proven_capabilities authority e) e (evidence_not_real trusted fake),
      level_not_real (source_of trusted) (full_conformance_passed (source_of trusted) e) fake,
    )
