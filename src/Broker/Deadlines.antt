-- ===== src/Broker/Deadlines.antt =====
-- src/broker/deadlines.ts: the time domains of a delivery. Instants and durations are
-- milliseconds. `retentionCutoffMs` is left out.
use xbus.Base.{ℕ, ◌+◌, ◌≡◌, Bool, false, ◌&&◌, Option, none, some, arith, leb, if◌then◌else◌}

pub record TimeDomains : Type 0 where
  pub acceptance_ttl_ms : ℕ
  pub response_deadline_ms : ℕ
  pub retention_ms : ℕ
  pub waiting_counts_toward_acceptance : Bool

abbrev pub default_time_domains : TimeDomains
default_time_domains = record {
  acceptance_ttl_ms = 86400000;
  response_deadline_ms = 600000;
  retention_ms = 604800000;
  waiting_counts_toward_acceptance = false;
}

unfoldable pub acceptance_expiry_ms : ℕ → ℕ → TimeDomains → ℕ
acceptance_expiry_ms created_at_ms paused_accum_ms d =
    (if d.waiting_counts_toward_acceptance then created_at_ms else created_at_ms + paused_accum_ms)
    + d.acceptance_ttl_ms

unfoldable pub response_deadline_ms : ℕ → TimeDomains → ℕ
response_deadline_ms injected_at_ms d = injected_at_ms + d.response_deadline_ms

-- The two optional fields of `opts`.
unfoldable pub is_expired : ℕ → ℕ → Option ℕ → Option ℕ → Bool
is_expired deadline_ms now_wall_ms none budget = leb deadline_ms now_wall_ms
is_expired deadline_ms now_wall_ms (some elapsed) none = leb deadline_ms now_wall_ms
is_expired deadline_ms now_wall_ms (some elapsed) (some budget) =
    leb deadline_ms now_wall_ms && leb budget elapsed

-- Unless waiting counts, a message that has been paused for `k` longer is expired at `now + k`, by
-- the wall clock alone, exactly if without that pause it is at `now`.
pub acceptance_expiry_pause :
    (created paused now k : ℕ) (d : TimeDomains)
    → d.waiting_counts_toward_acceptance ≡ false
    → is_expired (acceptance_expiry_ms created (paused + k) d) (now + k) none none
      ≡ is_expired (acceptance_expiry_ms created paused d) now none none
unfolding is_expired acceptance_expiry_ms
acceptance_expiry_pause created paused now k d h = ground arith
