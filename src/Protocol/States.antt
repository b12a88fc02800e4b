-- ===== src/Protocol/States.antt =====
-- src/protocol/states.ts: delivery states, triggers and the authoritative edge set.
use xbus.Base.{Bool, true, false, ◌&&◌, List, [], ◌∷◌, Option, none, some, if◌then◌else◌}

pub data DeliveryState : Type 0 where
  queued dispatching transport_written accepted completed : DeliveryState
  retry_wait rejected expired dead_letter cancelled : DeliveryState

pub data Trigger : Type 0 where
  pickup write_ok write_fail ack_accept ack_reject complete : Trigger
  ack_timeout backoff_elapsed max_attempts expire cancel : Trigger

-- The guard that the compare-and-set layer adds to its WHERE clause.
pub data Guard : Type 0 where
  requires_ack_0 requires_ack_1 : Guard

pub record Edge : Type 0 where
  pub from : DeliveryState
  pub trigger : Trigger
  pub to : DeliveryState
  pub guard : Option Guard
  pub increments_attempt : Bool

unfoldable pub same_state : DeliveryState → DeliveryState → Bool
same_state queued queued = true
same_state dispatching dispatching = true
same_state transport_written transport_written = true
same_state accepted accepted = true
same_state completed completed = true
same_state retry_wait retry_wait = true
same_state rejected rejected = true
same_state expired expired = true
same_state dead_letter dead_letter = true
same_state cancelled cancelled = true
same_state _ _ = false

unfoldable pub same_trigger : Trigger → Trigger → Bool
same_trigger pickup pickup = true
same_trigger write_ok write_ok = true
same_trigger write_fail write_fail = true
same_trigger ack_accept ack_accept = true
same_trigger ack_reject ack_reject = true
same_trigger complete complete = true
same_trigger ack_timeout ack_timeout = true
same_trigger backoff_elapsed backoff_elapsed = true
same_trigger max_attempts max_attempts = true
same_trigger expire expire = true
same_trigger cancel cancel = true
same_trigger _ _ = false

abbrev pub edge : DeliveryState → Trigger → DeliveryState → Edge
edge f t u = record { from = f; trigger = t; to = u; guard = none; increments_attempt = false }

-- `EDGES`.
unfoldable pub edges : List Edge
edges =
    edge queued pickup dispatching
    ∷ edge queued expire expired
    ∷ edge queued cancel cancelled
    ∷ edge dispatching write_ok transport_written
    ∷ edge dispatching write_fail retry_wait
    ∷ edge dispatching expire expired
    ∷ edge dispatching cancel cancelled
    ∷ edge transport_written ack_accept accepted
    ∷ edge transport_written ack_reject rejected
    ∷ record {
      from = transport_written;
      trigger = complete;
      to = completed;
      guard = some requires_ack_0;
      increments_attempt = false;
    }
    ∷ edge transport_written ack_timeout retry_wait
    ∷ edge transport_written expire expired
    ∷ edge transport_written cancel cancelled
    ∷ edge accepted complete completed
    ∷ edge accepted ack_reject rejected
    ∷ edge accepted expire expired
    ∷ edge accepted cancel cancelled
    ∷ record {
      from = retry_wait;
      trigger = backoff_elapsed;
      to = dispatching;
      guard = none;
      increments_attempt = true;
    }
    ∷ edge retry_wait max_attempts dead_letter
    ∷ edge retry_wait expire expired
    ∷ edge retry_wait cancel cancelled
    ∷ []

-- `EDGE_INDEX.get`: the loop of `set` calls leaves the last edge with a key.
unfoldable pub edge_index : List Edge → DeliveryState → Trigger → Option Edge
unfolding same_state same_trigger
edge_index [] f t = none
edge_index (e ∷ es) f t = elim (edge_index es f t) [
  | some later ↦ some later
  | none ↦ if same_state e.from f && same_trigger e.trigger t then some e else none
]

-- `TransitionResult`: `illegal` is `{ ok: false }`.
pub data TransitionResult : Type 0 where
  illegal : TransitionResult
  legal : DeliveryState → Option Guard → Bool → TransitionResult

unfoldable pub resolve_transition : DeliveryState → Trigger → TransitionResult
unfolding edge_index edges
resolve_transition f t = elim (edge_index edges f t) [
  | none ↦ illegal
  | some e ↦ legal e.to e.guard e.increments_attempt
]

unfoldable pub any_edge : (Edge → Bool) → List Edge → Bool
any_edge p [] = false
any_edge p (e ∷ es) = if p e then true else any_edge p es

unfoldable pub is_legal_transition : DeliveryState → DeliveryState → Bool
unfolding any_edge edges same_state
is_legal_transition f u = any_edge (λ e. same_state e.from f && same_state e.to u) edges

-- `TERMINAL_STATES.has`.
unfoldable pub is_terminal : DeliveryState → Bool
is_terminal completed = true
is_terminal rejected = true
is_terminal expired = true
is_terminal dead_letter = true
is_terminal cancelled = true
is_terminal _ = false
