-- ===== src/Broker/Cancellation.antt =====
-- src/broker/cancellation.ts: a cancel is hard before the first injection, advisory after it.
use xbus.Base.{
  ℕ, zero, suc, ◌≡◌, refl, sym, ◌∙◌, ap, ◌⊎◌, inl, inr, Bool, true, false, List, [], ◌∷◌, Option,
  none, some, arith, ◌==◌, if◌then◌else◌, Bool-cases, update_where, count_where, first_where,
  some-eq,
}
use xbus.Protocol.States.{DeliveryState}
use xbus.Broker.Db.{Db, Delivery, audit, AuditType}
use xbus.Broker.Evolution.{
  Moves, one_move, cancelling, cancel_queued, cancel_retry, moved, Evolves, Evolves-refl,
  Evolves-update_where, Advances, Advances-same, Advances-branch,
}
use xbus.Broker.Delivery.Checkpoint.{is_pending, is_pending_of, is_written}
use xbus.Broker.Delivery.Evolve.{and-right, pending_open}
use xbus.Broker.Reaper.IdleSessions.{is_accepted}
use xbus.Broker.Reaper.Spared.{delivery_row}

pub data CancelOutcome : Type 0 where
  cancelled_before_delivery cancellation_requested_after_injection : CancelOutcome
  already_completed cannot_confirm_delivery_state : CancelOutcome

-- `state` is absent for the text `unknown`.
pub record CancelResult : Type 0 where
  pub outcome : CancelOutcome
  pub state : Option DeliveryState

abbrev pub is_completed : DeliveryState → Bool
is_completed DeliveryState.completed = true
is_completed _ = false

abbrev pub cancel_pending : ℕ → Delivery → Delivery
cancel_pending now d = record d { state = DeliveryState.cancelled; updated_at = now }

unfoldable pub cancelled_row : ℕ → ℕ → Db → Db
unfolding update_where is_pending audit
cancelled_row now id db =
    audit AuditType.cancelled_before_delivery (some id) (record db {
      deliveries = update_where (is_pending_of id) (cancel_pending now) db.deliveries;
    })

abbrev pub answer : CancelOutcome → Delivery → Option CancelResult
answer outcome d = some (record { outcome = outcome; state = some d.state })

-- A delivery that is past a hard cancel.
unfoldable pub cancel_late : ℕ → Delivery → Db → Db × Option CancelResult
unfolding is_written is_accepted audit
cancel_late id d db =
    if (if is_written d.state then true else is_accepted d.state)
    then (
      audit AuditType.cancellation_requested_after_injection (some id) db,
      answer CancelOutcome.cancellation_requested_after_injection d,
    )
    else (if is_completed d.state
        then (db, answer already_completed d)
        else (db, answer cannot_confirm_delivery_state d))

-- `rest` is the method's call of itself after a lost compare-and-set.
unfoldable pub cancel_row :
    ℕ → ℕ → Option Delivery → Db × Option CancelResult → Db → Db × Option CancelResult
unfolding count_where is_pending cancelled_row cancel_late
cancel_row now id none rest db =
    (db, some (record { outcome = cannot_confirm_delivery_state; state = none }))
cancel_row now id (some d) rest db =
    if is_pending d.state
    then (if count_where (is_pending_of id) db.deliveries == 0 then rest else (
      cancelled_row now id db,
      some (record { outcome = cancelled_before_delivery; state = some DeliveryState.cancelled }),
    ))
    else cancel_late id d db

-- The calls are bounded by fuel; no result stands for fuel that has run out.
unfoldable pub cancel : ℕ → ℕ → ℕ → Db → Db × Option CancelResult
unfolding first_where
cancel zero now id db = (db, none)
cancel (suc fuel) now id db =
    let rest = cancel fuel now id db in cancel_row now id (delivery_row id db.deliveries) rest db

-- What a cancel did: it prevented a pending delivery, or it changed no delivery.
abbrev pub Prevented : ℕ → Db → Db → CancelResult → Type 0
Prevented id before after r =
    ((d : Delivery) × (delivery_row id before.deliveries ≡ some d) × (is_pending d.state ≡ true))
    × ((d : Delivery) × (delivery_row id after.deliveries ≡ some d)
        × (d.state ≡ DeliveryState.cancelled))
    × (r.outcome ≡ cancelled_before_delivery)

abbrev pub Kept : ℕ → Db → Db → CancelResult → Type 0
Kept id before after r =
    (after.deliveries ≡ before.deliveries)
    × ((d : Delivery) → delivery_row id before.deliveries ≡ some d → is_pending d.state ≡ false)
    × (r.outcome ≡ cancelled_before_delivery → ⊥)

pending_counted :
    (id : ℕ) (ds : List Delivery) (d : Delivery)
    → delivery_row id ds ≡ some d
    → is_pending d.state ≡ true
    → (count_where (is_pending_of id) ds == 0) ≡ false
unfolding first_where count_where
pending_counted id [] d h p = cc
pending_counted id (x ∷ xs) d h p = elim (Bool-cases (x.message_id == id)) [
  | inl hit ↦ let same : x ≡ d = some-eq (rw hit at h) in rw (hit, same, p) (ground arith)
  | inr miss ↦ rw miss (pending_counted id xs d (rw miss at h) p)
]

cancelled-row :
    (now id : ℕ) (ds : List Delivery) (d : Delivery)
    → delivery_row id ds ≡ some d
    → is_pending d.state ≡ true
    → delivery_row id (update_where (is_pending_of id) (cancel_pending now) ds)
      ≡ some (cancel_pending now d)
unfolding first_where update_where
cancelled-row now id [] d h p = cc
cancelled-row now id (x ∷ xs) d h p = elim (Bool-cases (x.message_id == id)) [
  | inl hit ↦
      let same : x ≡ d = some-eq (rw hit at h) in
      rw (hit, ap (λ (y : Delivery). is_pending y.state) same, p, hit) (rw same)
  | inr miss ↦ rw (miss, miss) (cancelled-row now id xs d (rw miss at h) p)
]

none-ne : {d : Delivery} → ¬ (◌≡◌ {A = Option Delivery} none (some d))
none-ne h = cc

cancel_late-kept :
    (id : ℕ) (d : Delivery) (db : Db)
    → (r : CancelResult) × ((cancel_late id d db).1 ≡ some r)
      × ((cancel_late id d db).0.deliveries ≡ db.deliveries)
      × (r.outcome ≡ cancelled_before_delivery → ⊥)
unfolding cancel_late audit
cancel_late-kept id d db =
    elim (Bool-cases (if is_written d.state then true else is_accepted d.state)) [
      | inl e ↦ (
        record {
          outcome = CancelOutcome.cancellation_requested_after_injection;
          state = some d.state;
        },
        rw e,
        rw e,
        λ h. cc,
      )
      | inr e ↦ elim (Bool-cases (is_completed d.state)) [
        | inl c ↦ (
          record { outcome = already_completed; state = some d.state },
          rw (e, c),
          rw (e, c),
          λ h. cc,
        )
        | inr c ↦ (
          record { outcome = cannot_confirm_delivery_state; state = some d.state },
          rw (e, c),
          rw (e, c),
          λ h. cc,
        )
      ]
    ]

cancel_row-cases :
    (now id : ℕ) (o : Option Delivery) (rest : Db × Option CancelResult) (db : Db)
    → delivery_row id db.deliveries ≡ o
    → (r : CancelResult) × ((cancel_row now id o rest db).1 ≡ some r)
      × (Prevented id db (cancel_row now id o rest db).0 r
          ⊎ Kept id db (cancel_row now id o rest db).0 r)
unfolding cancel_row cancelled_row audit
cancel_row-cases now id none rest db row = (
  record { outcome = cannot_confirm_delivery_state; state = none },
  refl,
  inr (refl, λ d h. absurd (none-ne (sym row ∙ h)), λ h. cc),
)
cancel_row-cases now id (some d) rest db row = elim (Bool-cases (is_pending d.state)) [
  | inl p ↦
      let counted = pending_counted id db.deliveries d row p in
      (
        record { outcome = cancelled_before_delivery; state = some DeliveryState.cancelled },
        rw (p, counted),
        rw (p, counted)
            (inl (
              (d, row, p),
              (cancel_pending now d, cancelled-row now id db.deliveries d row p, refl),
              refl,
            )),
      )
  | inr p ↦
      let (r, result, same, other) = cancel_late-kept id d db in
      (r, rw p result, rw p (inr (same, λ e h. rw (sym (some-eq (sym row ∙ h))) p, other)))
]

-- One call answers, so the method's call of itself is never made: the cancel prevents the
-- delivery if that is pending, and says so, and in every other state it changes no delivery and
-- does not claim to have prevented it.
pub cancel_cases :
    (fuel now id : ℕ) (db : Db)
    → (r : CancelResult) × ((cancel (suc fuel) now id db).1 ≡ some r)
      × (Prevented id db (cancel (suc fuel) now id db).0 r
          ⊎ Kept id db (cancel (suc fuel) now id db).0 r)
unfolding cancel
cancel_cases fuel now id db =
    cancel_row-cases now id (delivery_row id db.deliveries) (cancel fuel now id db) db refl

cancels : (s : DeliveryState) → is_pending s ≡ true → Moves cancelling s DeliveryState.cancelled
unfolding is_pending
cancels DeliveryState.queued h = one_move cancel_queued
cancels DeliveryState.retry_wait h = one_move cancel_retry
cancels _ h = cc

cancel_pending-Evolves :
    (now id : ℕ) (ds : List Delivery)
    → Evolves cancelling ds (update_where (is_pending_of id) (cancel_pending now) ds)
cancel_pending-Evolves now id ds =
    Evolves-update_where (is_pending_of id) (cancel_pending now) ds (λ d e.
      let pending = and-right (d.message_id == id) (is_pending d.state) e in
      moved d (cancel_pending now d) refl refl refl (cancels d.state pending)
        (pending_open d.state pending))

cancel_row-Advances :
    (now id : ℕ) (o : Option Delivery) (rest : Db × Option CancelResult) (db : Db)
    → Advances cancelling db rest.0
    → Advances cancelling db (cancel_row now id o rest db).0
unfolding cancel_row cancelled_row audit
cancel_row-Advances now id none rest db h = Evolves-refl db.deliveries
cancel_row-Advances now id (some d) rest db h =
    let (_, _, same, _) = cancel_late-kept id d db in
    Advances-branch db (is_pending d.state) _ (cancel_late id d db)
      (Advances-branch db (count_where (is_pending_of id) db.deliveries == 0) rest _ h
        (cancel_pending-Evolves now id db.deliveries))
      (Advances-same db (cancel_late id d db).0 same)

-- A cancel makes only the moves of a cancelling caller and changes none in a terminal state.
pub cancel-Advances : (fuel now id : ℕ) (db : Db) → Advances cancelling db (cancel fuel now id db).0
unfolding cancel
cancel-Advances zero now id db = Evolves-refl db.deliveries
cancel-Advances (suc fuel) now id db =
    cancel_row-Advances now id (delivery_row id db.deliveries) (cancel fuel now id db) db
      (cancel-Advances fuel now id db)
