-- ===== src/Broker/Readiness.antt =====
-- src/broker/readiness.ts: which sessions may be handed a fresh request.
use text.Mathlib.Text.{◌==◌ as str_eq}
use xbus.Base.{
  ◌≡◌, ◌≢◌, ◌↔◌, ◌⊎◌, Bool, true, false, List, [], ◌∷◌, Option, none, some, String, arith,
  if◌then◌else◌,
}

pub data Readiness : Type 0 where
  initializing ready_checkpoint ready_live degraded_ack_unavailable : Readiness
  degraded_hook_unavailable incompatible disconnected : Readiness

unfoldable pub accepts_injection : Readiness → Bool
accepts_injection ready_checkpoint = true
accepts_injection ready_live = true
accepts_injection _ = false

-- Each hint may be absent.
pub record ReadinessHints : Type 0 where
  pub ack_available : Option Bool
  pub hook_available : Option Bool
  pub live : Option Bool
  pub version_ok : Option Bool

unfoldable pub includes : List String → String → Bool
includes [] s = false
includes (t ∷ ts) s = if str_eq t s then true else includes ts s

-- `hint === b`.
abbrev pub hint_is : Option Bool → Bool → Bool
hint_is none b = false
hint_is (some true) b = b
hint_is (some false) true = false
hint_is (some false) false = true

-- `hint ?? b`.
abbrev pub hint_or : Option Bool → Bool → Bool
hint_or none b = b
hint_or (some a) b = a

unfoldable pub can_ack : List String → ReadinessHints → Bool
can_ack capabilities hints = hint_or hints.ack_available (includes capabilities "ack")

unfoldable pub resolve_readiness : String → List String → ReadinessHints → Readiness
unfolding can_ack
resolve_readiness receive_mode capabilities hints =
    if hint_is hints.version_ok false
    then incompatible
    else (if can_ack capabilities hints
        then (if str_eq receive_mode "hook_checkpoint"
            then (if hint_is hints.hook_available false
                then degraded_hook_unavailable
                else ready_checkpoint)
            else (if hint_is hints.live true then ready_live else ready_checkpoint))
        else degraded_ack_unavailable)

-- A session may be handed a fresh request exactly when its version was not refused, it can
-- acknowledge, and, if it takes delivery at a hook checkpoint, its hook is not known to be absent.
pub accepts_injection-resolve_readiness_iff :
    (m : String) (cs : List String) (h : ReadinessHints)
    → (accepts_injection (resolve_readiness m cs h) ≡ true) ↔ (
        (h.version_ok ≢ some false)
        × (can_ack cs h ≡ true)
        × ((str_eq m "hook_checkpoint" ≡ false) ⊎ (h.hook_available ≢ some false)))
unfolding resolve_readiness accepts_injection
accepts_injection-resolve_readiness_iff m cs h =
    (λ e. (λ v. ground arith, ground arith, ground arith), λ e. ground arith)
