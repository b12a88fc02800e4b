-- ===== src/Adapter/Tier.antt =====
-- src/adapter/tier.ts: the highest tier that verified capabilities and evidence allow.
use xbus.Base.{ℕ, ◌≡◌, ◌↔◌, Bool, true, false, ◌&&◌, arith, ltb, leb, if◌then◌else◌}
use xbus.Adapter.Capabilities.{VerifiedCapabilities}

pub data SupportTier : Type 0 where
  t0 t1 t2 t3 t4 t5 : SupportTier

pub record ValidationEvidence : Type 0 where
  pub booted_and_registered : Bool
  pub send_verified : Bool
  pub manual_receive_verified : Bool
  pub checkpoint_receive_verified : Bool
  pub ack_reply_verified : Bool
  pub live_receive_verified : Bool
  pub full_runtime_validation : Bool

unfoldable pub empty_evidence : ValidationEvidence
empty_evidence = record {
  booted_and_registered = false;
  send_verified = false;
  manual_receive_verified = false;
  checkpoint_receive_verified = false;
  ack_reply_verified = false;
  live_receive_verified = false;
  full_runtime_validation = false;
}

-- The tests of one rung, in the order of the code.
abbrev pub manual_proven : VerifiedCapabilities → ValidationEvidence → Bool
manual_proven c e = c.receive.manual_pull && e.manual_receive_verified

abbrev pub checkpoint_proven : VerifiedCapabilities → ValidationEvidence → Bool
checkpoint_proven c e =
    c.receive.lifecycle_checkpoint
    && (c.messaging.acknowledgements
        && (c.messaging.correlated_replies
            && (e.checkpoint_receive_verified && e.ack_reply_verified)))

abbrev pub live_proven : VerifiedCapabilities → ValidationEvidence → Bool
live_proven c e = c.receive.live_push && e.live_receive_verified

unfoldable pub calculate_maximum_tier : VerifiedCapabilities → ValidationEvidence → SupportTier
calculate_maximum_tier c e =
    if e.booted_and_registered
    then (if e.send_verified
        then (if manual_proven c e
            then (if checkpoint_proven c e
                then (if live_proven c e
                    then (if e.full_runtime_validation then t5 else t4)
                    else t3)
                else t2)
            else t1)
        else t0)
    else t0

-- `TIER_ORDER.indexOf`.
unfoldable pub rank : SupportTier → ℕ
rank t0 = 0
rank t1 = 1
rank t2 = 2
rank t3 = 3
rank t4 = 4
rank t5 = 5

unfoldable pub is_within_ceiling : SupportTier → SupportTier → Bool
unfolding rank
is_within_ceiling advertised ceiling = leb (rank advertised) (rank ceiling)

unfoldable pub awarded_tier : SupportTier → SupportTier → SupportTier
unfolding rank
awarded_tier ceiling policy_max =
    if ltb (rank policy_max) (rank ceiling) then policy_max else ceiling

-- What each rung asks for.
abbrev pub Sends : ValidationEvidence → Type 0
Sends e = (e.booted_and_registered ≡ true) × (e.send_verified ≡ true)

abbrev pub Pulls : VerifiedCapabilities → ValidationEvidence → Type 0
Pulls c e = (c.receive.manual_pull ≡ true) × (e.manual_receive_verified ≡ true)

abbrev pub Checkpoints : VerifiedCapabilities → ValidationEvidence → Type 0
Checkpoints c e =
    (c.receive.lifecycle_checkpoint ≡ true)
    × (c.messaging.acknowledgements ≡ true)
    × (c.messaging.correlated_replies ≡ true)
    × (e.checkpoint_receive_verified ≡ true)
    × (e.ack_reply_verified ≡ true)

abbrev pub ReceivesLive : VerifiedCapabilities → ValidationEvidence → Type 0
ReceivesLive c e = (c.receive.live_push ≡ true) × (e.live_receive_verified ≡ true)

-- What a tier asks for: its own rung's proof and all those below it.
abbrev pub Earned : SupportTier → VerifiedCapabilities → ValidationEvidence → Type 0
Earned t0 c e = Unit {0}
Earned t1 c e = Sends e
Earned t2 c e = Sends e × Pulls c e
Earned t3 c e = Sends e × Pulls c e × Checkpoints c e
Earned t4 c e = Sends e × Pulls c e × Checkpoints c e × ReceivesLive c e
Earned t5 c e =
    Sends e × Pulls c e × Checkpoints c e × ReceivesLive c e × (e.full_runtime_validation ≡ true)

-- A tier is within the ceiling that the broker computes exactly if its own rung and every rung below
-- it are proved.
pub calculate_maximum_tier-Earned :
    (t : SupportTier) (c : VerifiedCapabilities) (e : ValidationEvidence)
    → (is_within_ceiling t (calculate_maximum_tier c e) ≡ true) ↔ Earned t c e
unfolding calculate_maximum_tier is_within_ceiling
calculate_maximum_tier-Earned t0 c e = ground arith
calculate_maximum_tier-Earned t1 c e = ground arith
calculate_maximum_tier-Earned t2 c e = ground arith
calculate_maximum_tier-Earned t3 c e = ground arith
calculate_maximum_tier-Earned t4 c e = ground arith
calculate_maximum_tier-Earned t5 c e = ground arith
