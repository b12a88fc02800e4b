-- ===== src/Broker/Scheduler/Slots.antt =====
-- src/broker/scheduler.ts: how often a fire slot is sent.
use xbus.Base.{ℕ, ◌≡◌, refl, Bool, true, false, ◌&&◌, List, [], ◌∷◌, ◌==◌, All}
use xbus.Protocol.Errors.{Result, ok, err}
use xbus.Broker.Schedules.{Schedule, Services, Tables}
use xbus.Broker.Scheduler.{conclude, is_claimed, tick}

-- The slot of a schedule, the key of what the operator is asked to send.
abbrev pub Slot : Type 0
Slot = ℕ × ℕ

abbrev pub same_slot : Slot → Slot → Bool
same_slot k j = k.0 == j.0 && k.1 == j.1

abbrev pub Distinct : List Slot → Type 0
Distinct [] = Unit {0}
Distinct (k ∷ ks) = All (λ j. same_slot k j ≡ false) ks × Distinct ks

module _ {S : Type 0} where
  -- The same services, with a log of the slots that the operator was asked to send.
  abbrev pub logging : Services S → Services (S × List Slot)
  logging sv = record {
    operator_send =
        λ q (st, log). let (st', r) = sv.operator_send q st in ((st', q.idempotency_key ∷ log), r);
    windows_of = sv.windows_of;
    trim = sv.trim;
    positive_number = sv.positive_number;
    per_session_wake_cap = sv.per_session_wake_cap;
  }

  -- No slot was sent twice, and each that was sent is claimed.
  abbrev pub IsOnceEach : Tables (S × List Slot) → Type 0
  IsOnceEach t = Distinct t.store.1 × All (λ (k : Slot). is_claimed k.0 k.1 t ≡ true) t.store.1

  pub conclude-store :
      (sv : Services (S × List Slot)) (s : Schedule) (slot now : ℕ) (r : Result ℕ)
      (t : Tables (S × List Slot))
      → (conclude sv s slot now r t).0.store ≡ t.store
  unfolding conclude
  conclude-store sv s slot now (ok id) t = refl
  conclude-store sv s slot now (err e) t = refl

  -- What a step may do to the claims and the log.
  abbrev KeepsOnce : Tables (S × List Slot) → Tables (S × List Slot) → Type 0
  KeepsOnce t after =
      (after.store.1 ≡ t.store.1)
      × ((a b : ℕ) → is_claimed a b t ≡ true → is_claimed a b after ≡ true)

  -- The tables after passes at these instants.
  unfoldable pub ticks : Services S → List ℕ → Tables S → Tables S
  unfolding tick
  ticks sv [] t = t
  ticks sv (now ∷ ns) t = ticks sv ns (tick sv now t).0
