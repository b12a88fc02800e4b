-- ===== src/Broker/Reaper/Spared.antt =====
-- What the ack timeouts of src/broker/reaper.ts leave alone.
use xbus.Base.{
  ℕ, ◌+◌, ◌≡◌, refl, sym, ◌∙◌, inl, inr, Bool, true, false, List, [], ◌∷◌, Option, ◌==◌, ==_iff,
  if◌then◌else◌, leb, Bool-cases, first_where, first_where-update_where-other,
}
use xbus.Broker.Db.{Db, Message, Delivery, audit}
use xbus.Broker.Retry.{next_backoff_ms}
use xbus.Broker.Delivery.Checkpoint.{is_written}
use xbus.Broker.Delivery.Evolve.{and-right}
use xbus.Broker.Reaper.AckTimeouts.{
  ReaperEnv, Tally, no_tally, requires_ack_of, is_awaiting_ack, exhaust, requeue, update_awaiting,
  release_leases_of, row_count, dead_letter_row, requeue_row, used_up, is_capped, reap_row,
  reap_rows, ack_due_rows, reap_ack_timeouts,
}

abbrev pub delivery_row : ℕ → List Delivery → Option Delivery
delivery_row id ds = first_where (λ d. d.message_id == id) ds

true-ne-false : ¬ (◌≡◌ {A = Bool} true false)
true-ne-false h = cc

-- An awaiting delivery's message requires an acknowledgement, so it is another.
awaiting-other :
    (id other : ℕ) (ms : List Message) (d : Delivery)
    → requires_ack_of id ms ≡ false
    → is_awaiting_ack other ms d ≡ true
    → (d.message_id == id) ≡ false
unfolding is_awaiting_ack
awaiting-other id other ms d exempt h =
    let needs =
      and-right (is_written d.state) (requires_ack_of d.message_id ms)
        (and-right (d.message_id == other) _ h) in
    elim (Bool-cases (d.message_id == id)) [
      | inl e ↦ absurd (true-ne-false (sym (rw ((==_iff d.message_id id).0 e, exempt) at needs)))
      | inr e ↦ e
    ]

-- The tables keep the messages and the one delivery.
record Spares (id : ℕ) (before after : Db) : Type 0 where
  messages : after.messages ≡ before.messages
  row : delivery_row id after.deliveries ≡ delivery_row id before.deliveries

Spares-refl : (id : ℕ) (db : Db) → Spares id db db
Spares-refl id db = record { messages = refl; row = refl }

Spares-trans : (id : ℕ) (a b c : Db) → Spares id a b → Spares id b c → Spares id a c
Spares-trans id a b c p q = record { messages = q.messages ∙ p.messages; row = q.row ∙ p.row }

Spares-branch :
    {A : Type 0} (id : ℕ) (a : Db) (b : Bool) (x y : Db × A)
    → Spares id a x.0
    → Spares id a y.0
    → Spares id a (if b then x else y).0
Spares-branch id a true x y p q = p
Spares-branch id a false x y p q = q

module _ (env : ReaperEnv) (id : ℕ) where
  update_awaiting-row :
      (other : ℕ) (f : Delivery → Delivery) (db : Db)
      → requires_ack_of id db.messages ≡ false
      → ((d : Delivery) → (f d).message_id ≡ d.message_id)
      → delivery_row id (update_awaiting other f db).deliveries ≡ delivery_row id db.deliveries
  unfolding update_awaiting
  update_awaiting-row other f db exempt keep =
      first_where-update_where-other (λ d. d.message_id == id) (is_awaiting_ack other db.messages) f
        db.deliveries (λ d h. awaiting-other id other db.messages d exempt h) (λ d. rw (keep d))

  reap_row-Spares :
      (row : Delivery) (db : Db) (t : Tally)
      → requires_ack_of id db.messages ≡ false
      → Spares id db (reap_row env row (db, t)).0
  unfolding reap_row dead_letter_row requeue_row release_leases_of audit
  reap_row-Spares row db t exempt =
      let n = row.attempt_ack_timeout + 1 in
      let delay = next_backoff_ms row.attempt_ack_timeout env.backoff (env.rng t.drawn) in
      let t' = record t { per_session = used_up t.per_session row.recipient_session_id } in
      let untouched = row_count row.message_id db == 0 in
      Spares-branch id db (is_capped env (t.per_session row.recipient_session_id)) (db, t) _
        (Spares-refl id db)
        (Spares-branch id db (leb env.backoff.max_attempts n) (dead_letter_row env row t' db)
          (requeue_row env row t' db)
          (Spares-branch id db untouched (db, t') _ (Spares-refl id db)
            (record {
              messages = refl;
              row = update_awaiting-row row.message_id (exhaust env n) db exempt (λ d. refl);
            }))
          (Spares-branch id db untouched _ _ (Spares-refl id db) (record {
            messages = refl;
            row = update_awaiting-row row.message_id (requeue env n delay) db exempt (λ d. refl);
          })))

  reap_rows-Spares :
      (rows : List Delivery) (s : Db × Tally)
      → requires_ack_of id s.0.messages ≡ false
      → Spares id s.0 (reap_rows env rows s).0
  unfolding reap_rows
  reap_rows-Spares [] s exempt = Spares-refl id s.0
  reap_rows-Spares (row ∷ rows) s exempt =
      let next = reap_row env row s in
      let first = reap_row-Spares row s.0 s.1 exempt in
      Spares-trans id s.0 next.0 (reap_rows env rows next).0 first
        (reap_rows-Spares rows next (rw first.messages exempt))

-- The ack timeouts leave the delivery of a message that requires no acknowledgement as it was,
-- whatever lease it carries and whatever other deliveries time out.
pub reap_ack_timeouts_spares :
    (env : ReaperEnv) (id : ℕ) (db : Db)
    → requires_ack_of id db.messages ≡ false
    → delivery_row id (reap_ack_timeouts env db).0.deliveries ≡ delivery_row id db.deliveries
unfolding reap_ack_timeouts
reap_ack_timeouts_spares env id db exempt =
    (reap_rows-Spares env id (ack_due_rows env db) (db, no_tally) exempt).row
