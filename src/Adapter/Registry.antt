-- ===== src/Adapter/Registry.antt =====
-- src/adapter-broker/trusted-evidence.ts: the evidence that the broker owns, and its registry. A
-- source is one of the known ones by its type, so the rejection of others is left out.
use Prim.Native.String.{◌++◌}
use text.Mathlib.Text.{◌==◌ as str_eq}
use text.Mathlib.TextEquality.{eq_iff}
use text.Mathlib.TextPositions.{eq_refl}
use xbus.Base.{
  ℕ, ◌≡◌, refl, Bool, true, false, not, List, [], ◌∷◌, Option, none, some, String, ◌==◌, ==_refl,
  arith, if◌then◌else◌, ap,
}
use xbus.Identity.Components.{ComponentRole, mcp, hook, transport, cli, admin}

pub data TrustedEvidenceSource : Type 0 where
  no_evidence conformance_runner real_runtime_validation policy_signed_off : TrustedEvidenceSource

pub record TrustedCapabilities : Type 0 where
  pub send_verified : Bool
  pub manual_receive_verified : Bool
  pub checkpoint_receive_verified : Bool
  pub live_receive_verified : Bool
  pub ack_reply_verified : Bool

pub record TrustedDurability : Type 0 where
  pub broker_restart_verified : Bool
  pub reconnect_verified : Bool
  pub queued_delivery_verified : Bool

pub record TrustedSecurity : Type 0 where
  pub fencing_verified : Bool
  pub redaction_verified : Option Bool
  pub secret_redaction_verified : Option Bool
  pub telemetry_redaction_verified : Option Bool
  pub packaged_runtime_verified : Bool

-- `evidenceId`, which nothing reads, is left out.
pub record BrokerTrustedEvidence : Type 0 where
  pub source : TrustedEvidenceSource
  pub adapter_id : String
  pub adapter_version : String
  pub role : ComponentRole
  pub build_id : Option String
  pub capabilities : TrustedCapabilities
  pub durability : TrustedDurability
  pub security : TrustedSecurity
  pub conformance_version : Option ℕ

pub record EvidenceQuery : Type 0 where
  pub adapter_id : String
  pub adapter_version : String
  pub role : ComponentRole
  pub build_id : Option String

pub data EvidenceRejectReason : Type 0 where
  absent adapter_id_mismatch adapter_version_mismatch role_mismatch : EvidenceRejectReason
  build_mismatch unsupported_conformance_version : EvidenceRejectReason

pub data EvidenceResolution : Type 0 where
  resolved : BrokerTrustedEvidence → EvidenceResolution
  rejected : EvidenceRejectReason → EvidenceResolution

abbrev pub role_name : ComponentRole → String
role_name mcp = "mcp"
role_name hook = "hook"
role_name transport = "transport"
role_name cli = "cli"
role_name admin = "admin"

abbrev pub role_index : ComponentRole → ℕ
role_index mcp = 0
role_index hook = 1
role_index transport = 2
role_index cli = 3
role_index admin = 4

abbrev pub same_role : ComponentRole → ComponentRole → Bool
same_role r s = role_index r == role_index s

unfoldable pub evidence_key : String → String → ComponentRole → String
evidence_key id version role = id ++ (" :: " ++ (version ++ (" :: " ++ role_name role)))

-- `Map.set` and `Map.get`.
unfoldable pub put_evidence :
    String
    → BrokerTrustedEvidence
    → List (String × BrokerTrustedEvidence)
    → List (String × BrokerTrustedEvidence)
put_evidence k e [] = (k, e) ∷ []
put_evidence k e ((j, f) ∷ m) = if str_eq j k then (k, e) ∷ m else (j, f) ∷ put_evidence k e m

unfoldable pub get_evidence :
    String → List (String × BrokerTrustedEvidence) → Option BrokerTrustedEvidence
get_evidence k [] = none
get_evidence k ((j, f) ∷ m) = if str_eq j k then some f else get_evidence k m

abbrev pub is_absence : TrustedEvidenceSource → Bool
is_absence no_evidence = true
is_absence _ = false

unfoldable pub record_evidence :
    BrokerTrustedEvidence
    → List (String × BrokerTrustedEvidence)
    → List (String × BrokerTrustedEvidence)
unfolding put_evidence evidence_key
record_evidence e m =
    if is_absence e.source
    then m
    else put_evidence (evidence_key e.adapter_id e.adapter_version e.role) e m

-- `(a ?? null) !== (b ?? null)`, negated.
abbrev pub same_build : Option String → Option String → Bool
same_build none none = true
same_build none (some b) = false
same_build (some a) none = false
same_build (some a) (some b) = str_eq a b

abbrev pub is_supported_version : Option ℕ → Bool
is_supported_version none = true
is_supported_version (some v) = v == 1

abbrev pub resolve_row : EvidenceQuery → Option BrokerTrustedEvidence → EvidenceResolution
resolve_row q none = rejected absent
resolve_row q (some e) =
    if not (str_eq e.adapter_id q.adapter_id)
    then rejected adapter_id_mismatch
    else (if not (str_eq e.adapter_version q.adapter_version)
        then rejected adapter_version_mismatch
        else (if not (same_role e.role q.role)
            then rejected role_mismatch
            else (if not (same_build q.build_id e.build_id)
                then rejected build_mismatch
                else (if is_supported_version e.conformance_version
                    then resolved e
                    else rejected unsupported_conformance_version))))

unfoldable pub resolve : EvidenceQuery → List (String × BrokerTrustedEvidence) → EvidenceResolution
unfolding get_evidence evidence_key
resolve q m = resolve_row q (get_evidence (evidence_key q.adapter_id q.adapter_version q.role) m)

pub same_role_sound : (r s : ComponentRole) → same_role r s ≡ true → r ≡ s
same_role_sound r s h = ground arith

same_build_sound : (a b : Option String) → same_build a b ≡ true → a ≡ b
same_build_sound none none h = refl
same_build_sound none (some b) h = cc
same_build_sound (some a) none h = cc
same_build_sound (some a) (some b) h = ap some ((eq_iff a b).0 h)

-- Evidence that is bound to the identity asked for, of a supported version.
abbrev pub IsBound : EvidenceQuery → BrokerTrustedEvidence → Type 0
IsBound q e =
    (e.adapter_id ≡ q.adapter_id)
    × (e.adapter_version ≡ q.adapter_version)
    × (e.role ≡ q.role)
    × (q.build_id ≡ e.build_id)
    × (is_supported_version e.conformance_version ≡ true)

resolve_row-IsBound :
    (q : EvidenceQuery) (o : Option BrokerTrustedEvidence) (e : BrokerTrustedEvidence)
    → resolve_row q o ≡ resolved e
    → (o ≡ some e) × IsBound q e
resolve_row-IsBound q none e h = cc
resolve_row-IsBound q (some f) e h = ground (
  arith,
  eq_iff f.adapter_id q.adapter_id,
  eq_iff f.adapter_version q.adapter_version,
  same_role_sound f.role q.role,
  same_build_sound q.build_id f.build_id,
)

-- Evidence that the registry resolves a query to is recorded under the query's key, and is bound to
-- the very adapter, version, role and build that it asks for, in a supported version.
pub resolve-IsBound :
    (q : EvidenceQuery) (m : List (String × BrokerTrustedEvidence)) (e : BrokerTrustedEvidence)
    → resolve q m ≡ resolved e
    → (get_evidence (evidence_key q.adapter_id q.adapter_version q.role) m ≡ some e) × IsBound q e
unfolding resolve
resolve-IsBound q m e h =
    resolve_row-IsBound q (get_evidence (evidence_key q.adapter_id q.adapter_version q.role) m) e h

get_evidence-put_evidence :
    (k j : String) (e : BrokerTrustedEvidence) (m : List (String × BrokerTrustedEvidence))
    → get_evidence j (put_evidence k e m) ≡ (if str_eq k j then some e else get_evidence j m)
unfolding get_evidence put_evidence
get_evidence-put_evidence k j e [] = refl
get_evidence-put_evidence k j e ((i, f) ∷ m) =
    ground (arith, eq_iff k j, eq_iff i k, eq_iff i j, get_evidence-put_evidence k j e m)

abbrev query_of : BrokerTrustedEvidence → EvidenceQuery
query_of e = record {
  adapter_id = e.adapter_id;
  adapter_version = e.adapter_version;
  role = e.role;
  build_id = e.build_id;
}

same_build_refl : (o : Option String) → same_build o o ≡ true
same_build_refl none = refl
same_build_refl (some a) = eq_refl a

resolve_row_self :
    (e : BrokerTrustedEvidence)
    → is_supported_version e.conformance_version ≡ true
    → resolve_row (query_of e) (some e) ≡ resolved e
resolve_row_self e h =
    rw
      (
        eq_refl e.adapter_id,
        eq_refl e.adapter_version,
        ==_refl (role_index e.role),
        same_build_refl e.build_id,
        h,
      )
      refl

-- Evidence of a supported version that is recorded is what the registry resolves its own identity to,
-- whatever was recorded before.
pub resolve-record_evidence :
    (e : BrokerTrustedEvidence) (m : List (String × BrokerTrustedEvidence))
    → is_absence e.source ≡ false
    → is_supported_version e.conformance_version ≡ true
    → resolve (query_of e) (record_evidence e m) ≡ resolved e
unfolding resolve record_evidence
resolve-record_evidence e m kept supported =
    let k = evidence_key e.adapter_id e.adapter_version e.role in
    rw (kept, get_evidence-put_evidence k k e m, eq_refl k) (resolve_row_self e supported)
