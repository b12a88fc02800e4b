-- ===== src/Protocol/Handshake.antt =====
-- src/protocol/handshake.ts: the compatibility verdict of a component's hello. The texts of
-- `detail` are left out: they are messages to people.
use xbus.Base.{ℕ, ◌≤◌, ◌≡◌, ◌↔◌, Bool, true, false, arith, ltb, min, max, if◌then◌else◌}

-- The fields of `HelloInfo` and of `BrokerHelloInfo` that the verdict reads.
pub record Versions : Type 0 where
  pub minimum_protocol_version : ℕ
  pub maximum_protocol_version : ℕ
  pub schema_version : ℕ

pub data CompatibilityResult : Type 0 where
  compatible upgrade_component restart_broker : CompatibilityResult
  upgrade_broker migration_required unsupported : CompatibilityResult

pub record CompatibilityVerdict : Type 0 where
  pub result : CompatibilityResult
  pub ok : Bool

abbrev pub verdict : CompatibilityResult → Bool → CompatibilityVerdict
verdict r b = record { result = r; ok = b }

unfoldable pub check_compatibility : Versions → Versions → CompatibilityVerdict
check_compatibility client broker =
    let lo = max client.minimum_protocol_version broker.minimum_protocol_version in
    let hi = min client.maximum_protocol_version broker.maximum_protocol_version in
    if ltb hi lo
    then (if ltb client.maximum_protocol_version broker.minimum_protocol_version
        then verdict upgrade_component false
        else verdict upgrade_broker false)
    else (if ltb broker.schema_version client.schema_version
        then verdict restart_broker false
        else (if ltb client.schema_version broker.schema_version
            then verdict upgrade_component false
            else verdict compatible true))

-- Some protocol version lies in both ranges.
abbrev pub Overlap : Versions → Versions → Type 0
Overlap c b =
    (p : ℕ) × (c.minimum_protocol_version ≤ p)
    × (p ≤ c.maximum_protocol_version)
    × (b.minimum_protocol_version ≤ p)
    × (p ≤ b.maximum_protocol_version)

check_compatibility_sound :
    (c b : Versions)
    → (check_compatibility c b).ok ≡ true
    → Overlap c b × (c.schema_version ≡ b.schema_version)
unfolding check_compatibility
check_compatibility_sound c b h = (
  (
    max c.minimum_protocol_version b.minimum_protocol_version,
    omega arith,
    ground arith,
    omega arith,
    ground arith,
  ),
  ground arith,
)

-- A component may register exactly when some protocol version lies in both ranges and the two
-- schema versions are equal; the verdict is then `compatible`, and it is never `compatible`
-- otherwise.
pub check_compatibility-ok_iff :
    (c b : Versions)
    → (((check_compatibility c b).ok ≡ true)
        ↔ (Overlap c b × (c.schema_version ≡ b.schema_version)))
      × (((check_compatibility c b).ok ≡ true) ↔ ((check_compatibility c b).result ≡ compatible))
unfolding check_compatibility
check_compatibility-ok_iff c b =
    ((check_compatibility_sound c b, λ h. ground arith), (λ h. ground arith, λ h. ground arith))
