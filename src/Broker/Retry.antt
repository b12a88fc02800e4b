-- ===== src/Broker/Retry.antt =====
-- src/broker/retry.ts: the retry disposition of an error, and bounded backoff.
use native.Mathlib.Nat.{
  le_trans, pow-le-pow_right, le-div_iff_mul-le, div-mul-le_self, div-le_of_le-mul, mul-le-mul_left,
  mul-le-mul_right,
}
use xbus.Base.{
  ℕ, ◌*◌, ◌/◌, ◌^◌, ◌≤◌, ◌<◌, ◌≡◌, refl, ◌↔◌, ◌⊎◌, inr, Bool, true, false, Option, none, some,
  arith, min, leb, if◌then◌else◌,
}
use xbus.Protocol.Errors.{
  XbusErrorCode, broker_unavailable, database_error, rate_limited, unknown_recipient, blocked,
  protocol_violation, protocol_mismatch, version_incompatible, forbidden_role, invalid_receipt,
  injection_not_found, reserved_metadata_key, reserved_kind, message_expired, payload_too_large,
  invalid_alias, policy_blocked, permission_relay_forbidden,
}

pub data RetryDisposition : Type 0 where
  transient permanent waiting : RetryDisposition

-- `PERMANENT.has`.
unfoldable pub is_permanent : XbusErrorCode → Bool
is_permanent unknown_recipient = true
is_permanent blocked = true
is_permanent protocol_violation = true
is_permanent protocol_mismatch = true
is_permanent version_incompatible = true
is_permanent forbidden_role = true
is_permanent invalid_receipt = true
is_permanent injection_not_found = true
is_permanent reserved_metadata_key = true
is_permanent reserved_kind = true
is_permanent message_expired = true
is_permanent payload_too_large = true
is_permanent invalid_alias = true
is_permanent policy_blocked = true
is_permanent permission_relay_forbidden = true
is_permanent _ = false

-- `TRANSIENT.has`.
unfoldable pub is_transient : XbusErrorCode → Bool
is_transient broker_unavailable = true
is_transient database_error = true
is_transient rate_limited = true
is_transient _ = false

pub record BackoffConfig : Type 0 where
  pub initial_delay_ms : ℕ
  pub max_delay_ms : ℕ
  pub max_attempts : ℕ
  pub factor : ℕ

abbrev pub default_backoff : BackoffConfig
default_backoff = record {
  initial_delay_ms = 1000;
  max_delay_ms = 60000;
  max_attempts = 6;
  factor = 2;
}

-- What the injected random source returns, as a fraction.
pub record Fraction : Type 0 where
  pub num : ℕ
  pub den : ℕ

unfoldable pub backoff_ceil : ℕ → BackoffConfig → ℕ
backoff_ceil attempt cfg = min cfg.max_delay_ms (cfg.initial_delay_ms * cfg.factor ^ attempt)

unfoldable pub next_backoff_ms : ℕ → BackoffConfig → Fraction → ℕ
unfolding backoff_ceil
next_backoff_ms attempt cfg rng = rng.num * backoff_ceil attempt cfg / rng.den

unfoldable pub attempts_exhausted : ℕ → BackoffConfig → Bool
attempts_exhausted attempt cfg = leb cfg.max_attempts attempt

div_mono : (m n d : ℕ) → 0 < d → m ≤ n → m / d ≤ n / d
div_mono m n d p h = (le-div_iff_mul-le p).1 (le_trans (div-mul-le_self m d) h)

ceil_mono :
    (a b : ℕ) (cfg : BackoffConfig)
    → 0 < cfg.factor
    → a ≤ b
    → backoff_ceil a cfg ≤ backoff_ceil b cfg
unfolding backoff_ceil
ceil_mono a b cfg p h = omega (arith, mul-le-mul_left cfg.initial_delay_ms (pow-le-pow_right p h))

-- With a random value of at most 1 the delay is at most the configured maximum and at most the
-- exponential ceiling of the attempt, and with a factor of at least 1 it never falls from one
-- attempt to a later one under the same random value.
pub next_backoff_ms_bounds :
    (a b : ℕ) (cfg : BackoffConfig) (rng : Fraction)
    → 0 < rng.den
    → rng.num ≤ rng.den
    → 0 < cfg.factor
    → a ≤ b
    → (next_backoff_ms a cfg rng ≤ cfg.max_delay_ms)
      × (next_backoff_ms a cfg rng ≤ cfg.initial_delay_ms * cfg.factor ^ a)
      × (next_backoff_ms a cfg rng ≤ next_backoff_ms b cfg rng)
unfolding next_backoff_ms
next_backoff_ms_bounds a b cfg rng pos small grow h =
    let top : rng.num * backoff_ceil a cfg / rng.den ≤ backoff_ceil a cfg =
      div-le_of_le-mul rng.den (mul-le-mul_right (backoff_ceil a cfg) small) in
    (
      omega (arith, top),
      omega (arith, top),
      div_mono _ _ rng.den pos (mul-le-mul_left rng.num (ceil_mono a b cfg grow h)),
    )

unfoldable pub disposition_for_error : Option XbusErrorCode → RetryDisposition
unfolding is_permanent is_transient
disposition_for_error none = permanent
disposition_for_error (some code) =
    if is_permanent code then permanent else (if is_transient code then transient else permanent)

-- An error is retried exactly when it is a refusal of the broker's availability, of the
-- database, or of the rate; every other code, and a text that is no code, is permanent, and no
-- error is `waiting`.
pub disposition_for_error_iff :
    (code : Option XbusErrorCode)
    → ((disposition_for_error code ≡ transient) ↔ (
        (code ≡ some broker_unavailable)
        ⊎ ((code ≡ some database_error) ⊎ (code ≡ some rate_limited))))
      × ((disposition_for_error code ≡ transient) ⊎ (disposition_for_error code ≡ permanent))
unfolding disposition_for_error
disposition_for_error_iff none = ((λ e. ground arith, λ e. ground arith), inr refl)
disposition_for_error_iff (some c) = ((λ e. ground arith, λ e. ground arith), ground arith)
