-- ===== src/Broker/Delivery/Presented.antt =====
-- Which bodies the checkpoint pulls of src/broker/delivery.ts hand over, and how often.
use xbus.Base.{
  ℕ, ◌≡◌, refl, sym, subst, ap, ◌∙◌, All-weaken, ◌≢◌, inl, inr, Bool, true, false, List, [], ◌∷◌,
  Option, none, some, arith, ==_refl, All, Bool-cases, count_where, ◌==◌,
}
use xbus.Protocol.Errors.{Result, ok}
use xbus.Identity.Components.{pull_hook_checkpoint}
use xbus.Broker.Readiness.{accepts_injection}
use xbus.Broker.Controls.{auto_delivery_enabled}
use xbus.Broker.Db.{Db, Message, CheckpointId, SessionAuthority, Env}
use xbus.Broker.Injections.{IssueParams, issue, injected}
use xbus.Broker.Delivery.Checkpoint.{
  PendingMessage, refresh_if_any, prepend, mark_written, first_injection, present, is_pending_of,
  inject_message, inject_all, pull_pending, gated_pull, checkpoint_pull,
  complete_if_no_response_required, pending_for_session_id, capped,
}
use xbus.Broker.Delivery.Sessions.{refresh_activity, authorized-ok, readiness_of}

-- Is the body of a message handed over already in an epoch?
abbrev pub presented : Db → ℕ → ℕ → Bool
presented db m e = injected db.injections m e 1

issue_fresh :
    (env : Env) (p : IssueParams) (db : Db) (id : ℕ)
    → (issue env p db).1 ≡ some id
    → (injected db.injections p.message_id p.recipient_epoch p.logical_injection_number ≡ false)
      × (injected
            (issue env p db).0.injections
            p.message_id
            p.recipient_epoch
            p.logical_injection_number
          ≡ true)
unfolding issue injected
issue_fresh env p db id h = (
  ground arith,
  ground
      (arith, ==_refl p.message_id, ==_refl p.recipient_epoch, ==_refl p.logical_injection_number),
)

issue-keeps-injected :
    (env : Env) (p : IssueParams) (db : Db) (m e l : ℕ)
    → injected db.injections m e l ≡ true
    → injected (issue env p db).0.injections m e l ≡ true
unfolding issue injected
issue-keeps-injected env p db m e l h = ground arith

complete-injections :
    (env : Env) (m : Message) (db : Db)
    → (complete_if_no_response_required env m db).injections ≡ db.injections
unfolding complete_if_no_response_required
complete-injections env m db = ground arith

mark_written-injections :
    (env : Env) (auth : SessionAuthority) (m : Message) (db : Db)
    → (mark_written env auth m db).injections ≡ db.injections
unfolding mark_written
mark_written-injections env auth m db = refl

present-injections :
    (noted : Bool) (env : Env) (m : Message) (db : Db) (o : Option ℕ)
    → (present noted env m db o).0.injections ≡ db.injections
unfolding present
present-injections noted env m db none = refl
present-injections noted env m db (some id) = rw (complete-injections env m _)

present-some :
    (noted : Bool) (env : Env) (m : Message) (db : Db) (o : Option ℕ) (p : PendingMessage)
    → (present noted env m db o).1 ≡ some p
    → (id : ℕ) × (o ≡ some id) × (p.message ≡ m)
unfolding present
present-some noted env m db none p h = cc
present-some noted env m db (some id) p h = (id, refl, ground arith)

none-ne-some : {p : PendingMessage} → ¬ (◌≡◌ {A = Option PendingMessage} none (some p))
none-ne-some h = cc

inject_message-keeps-presented :
    (noted : Bool) (env : Env) (auth : SessionAuthority) (cp : CheckpointId) (m : Message) (db : Db)
    (k e : ℕ)
    → presented db k e ≡ true
    → presented (inject_message noted env auth cp m db).0 k e ≡ true
unfolding inject_message
inject_message-keeps-presented noted env auth cp m db k e h =
    elim (Bool-cases (count_where (is_pending_of m.message_id) db.deliveries == 0)) [
      | inl done ↦ rw (done, inject_message) h
      | inr more ↦
          let marked = mark_written env auth m db in
          let issued = issue env (first_injection auth cp m) marked in
          rw (more, inject_message)
            (rw (present-injections noted env m issued.0 issued.1) (
              issue-keeps-injected env (first_injection auth cp m) marked k e 1
                (rw (mark_written-injections env auth m db) h)))
    ]

inject_message_fresh :
    (noted : Bool) (env : Env) (auth : SessionAuthority) (cp : CheckpointId) (m : Message) (db : Db)
    (p : PendingMessage)
    → (inject_message noted env auth cp m db).1 ≡ some p
    → (p.message ≡ m)
      × (presented db m.message_id auth.epoch ≡ false)
      × (presented (inject_message noted env auth cp m db).0 m.message_id auth.epoch ≡ true)
unfolding inject_message
inject_message_fresh noted env auth cp m db p h =
    elim (Bool-cases (count_where (is_pending_of m.message_id) db.deliveries == 0)) [
      | inl done ↦ absurd (none-ne-some (rw (done, inject_message) at h))
      | inr more ↦
          let marked = mark_written env auth m db in
          let issued = issue env (first_injection auth cp m) marked in
          let (id, got, same) =
            present-some noted env m issued.0 issued.1 p (rw (more, inject_message) at h) in
          let (before, after) = issue_fresh env (first_injection auth cp m) marked id got in
          (
            same,
            (rw (mark_written-injections env auth m db) at before),
            rw (more, inject_message) (rw (present-injections noted env m issued.0 issued.1) after),
          )
    ]

inject_all-keeps-presented :
    (noted : Bool) (env : Env) (auth : SessionAuthority) (cp : CheckpointId) (ms : List Message)
    (db : Db) (k e : ℕ)
    → presented db k e ≡ true
    → presented (inject_all noted env auth cp ms db).0 k e ≡ true
unfolding inject_all
inject_all-keeps-presented noted env auth cp [] db k e h = h
inject_all-keeps-presented noted env auth cp (m ∷ ms) db k e h =
    inject_all-keeps-presented noted env auth cp ms (inject_message noted env auth cp m db).0 k e
      (inject_message-keeps-presented noted env auth cp m db k e h)

-- No two of the messages have one id.
abbrev pub NoRepeat : List PendingMessage → Type 0
NoRepeat [] = Unit {0}
NoRepeat (p ∷ ps) = All (λ q. q.message.message_id ≢ p.message.message_id) ps × NoRepeat ps

-- The messages were not presented before, are presented after, and do not repeat.
abbrev pub Fresh : Db → Db → ℕ → PendingMessage → Type 0
Fresh before after e p =
    (presented before p.message.message_id e ≡ false)
    × (presented after p.message.message_id e ≡ true)

abbrev pub Handed : Db → Db → ℕ → List PendingMessage → Type 0
Handed before after e out = All (Fresh before after e) out × NoRepeat out

true-ne-false : ¬ (◌≡◌ {A = Bool} true false)
true-ne-false h = cc

not_presented :
    (db db' : Db) (k e : ℕ)
    → (presented db k e ≡ true → presented db' k e ≡ true)
    → presented db' k e ≡ false
    → presented db k e ≡ false
not_presented db db' k e keep h = elim (Bool-cases (presented db k e)) [
  | inl yes_before ↦ absurd (true-ne-false (sym (keep yes_before) ∙ h))
  | inr not_before ↦ not_before
]

Handed-prepend :
    (before middle after : Db) (m e : ℕ) (o : Option PendingMessage) (out : List PendingMessage)
    → ((k : ℕ) → presented before k e ≡ true → presented middle k e ≡ true)
    → ((k : ℕ) → presented middle k e ≡ true → presented after k e ≡ true)
    → ((p : PendingMessage)
        → o ≡ some p
        → (presented before p.message.message_id e ≡ false)
          × (presented middle p.message.message_id e ≡ true))
    → Handed middle after e out
    → Handed before after e (prepend o out)
Handed-prepend before middle after m e none out k1 k2 fresh h = (
  All-weaken (Fresh middle after e) (Fresh before after e) out
      (λ q f.
        (not_presented before middle q.message.message_id e (k1 q.message.message_id) f.0, f.1))
      h.0,
  h.1,
)
Handed-prepend before middle after m e (some p) out k1 k2 fresh h =
    let f = fresh p refl in
    (
      (
        (f.0, k2 p.message.message_id f.1),
        All-weaken (Fresh middle after e) (Fresh before after e) out
            (λ q f. (
              not_presented before middle q.message.message_id e (k1 q.message.message_id) f.0,
              f.1,
            ))
            h.0,
      ),
      (
        All-weaken (Fresh middle after e) (λ q. q.message.message_id ≢ p.message.message_id) out
            (λ q g same. true-ne-false (sym f.1 ∙ ap (λ k. presented middle k e) (sym same) ∙ g.0))
            h.0,
        h.1,
      ),
    )

inject_all-Handed :
    (noted : Bool) (env : Env) (auth : SessionAuthority) (cp : CheckpointId) (ms : List Message)
    (db : Db)
    → let r = inject_all noted env auth cp ms db in Handed db r.0 auth.epoch r.1
unfolding inject_all
inject_all-Handed noted env auth cp [] db = (tt, tt)
inject_all-Handed noted env auth cp (m ∷ ms) db =
    let r = inject_message noted env auth cp m db in
    Handed-prepend db r.0 (inject_all noted env auth cp ms r.0).0 m.message_id auth.epoch r.1
      (inject_all noted env auth cp ms r.0).1
      (λ k. inject_message-keeps-presented noted env auth cp m db k auth.epoch)
      (λ k. inject_all-keeps-presented noted env auth cp ms r.0 k auth.epoch)
      (λ p e.
        let f = inject_message_fresh noted env auth cp m db p e in
        (rw (ap (λ x. x.message_id) f.0) f.1, rw (ap (λ x. x.message_id) f.0) f.2))
      (inject_all-Handed noted env auth cp ms r.0)

ok-injective : {A : Type 0} {x y : A} → ◌≡◌ {A = Result A} (ok x) (ok y) → x ≡ y
ok-injective h = cc

refresh-injections :
    (env : Env) (sid : ℕ) (out : List PendingMessage) (db : Db)
    → (refresh_if_any env sid out db).injections ≡ db.injections
unfolding refresh_activity
refresh-injections env sid [] db = refl
refresh-injections env sid (p ∷ ps) db = refl

Handed-cong :
    (before after after' : Db) (e : ℕ) (out : List PendingMessage)
    → after'.injections ≡ after.injections
    → Handed before after e out
    → Handed before after' e out
Handed-cong before after after' e out same h = (
  All-weaken (Fresh before after e) (Fresh before after' e) out (λ q f. (f.0, rw same f.1)) h.0,
  h.1,
)

pub pull_pending-Handed :
    (noted : Bool) (env : Env) (auth : SessionAuthority) (cp : CheckpointId) (limit : ℕ) (db : Db)
    (out : List PendingMessage)
    → (pull_pending noted env auth cp limit db).1 ≡ ok out
    → Handed db (pull_pending noted env auth cp limit db).0 auth.epoch out
unfolding pull_pending
pull_pending-Handed noted env auth cp limit db out h =
    let ms = pending_for_session_id env auth.session_id (capped limit) db in
    let r = inject_all noted env auth cp ms db in
    let same : r.1 ≡ out = ok-injective h in
    subst (Handed db (refresh_if_any env auth.session_id r.1 r.0) auth.epoch) same (
      Handed-cong db r.0 (refresh_if_any env auth.session_id r.1 r.0) auth.epoch r.1
        (refresh-injections env auth.session_id r.1 r.0)
        (inject_all-Handed noted env auth cp ms db))

Handed-empty :
    (before after : Db) (e : ℕ) (out : List PendingMessage)
    → ◌≡◌ {A = Result (List PendingMessage)} (ok []) (ok out)
    → Handed before after e out
Handed-empty before after e [] h = (tt, tt)
Handed-empty before after e (p ∷ ps) h = cc

gated_pull-Handed :
    (env : Env) (auth : SessionAuthority) (cp : CheckpointId) (limit : ℕ) (db : Db)
    (out : List PendingMessage)
    → (gated_pull env auth cp limit db).1 ≡ ok out
    → Handed db (gated_pull env auth cp limit db).0 auth.epoch out
unfolding gated_pull
gated_pull-Handed env auth cp limit db out h =
    elim (Bool-cases (accepts_injection (readiness_of auth.session_id db))) [
      | inr off ↦
          Handed-empty db (gated_pull env auth cp limit db).0 auth.epoch out
            (rw (off, gated_pull) at h)
      | inl on ↦ elim (Bool-cases (auto_delivery_enabled db.session_controls auth.session_id)) [
        | inr off ↦
            Handed-empty db (gated_pull env auth cp limit db).0 auth.epoch out
              (rw (on, off, gated_pull) at h)
        | inl free ↦
            rw (on, free, gated_pull)
              (pull_pending-Handed true env auth cp limit db out (rw (on, free, gated_pull) at h))
      ]
    ]

-- Every message that a checkpoint pull hands over had no injection in the caller's epoch before,
-- and has one after; and no two of them are one message.
pub checkpoint_pull-Handed :
    (env : Env) (auth : SessionAuthority) (cp : CheckpointId) (limit : ℕ) (db : Db)
    (out : List PendingMessage)
    → (checkpoint_pull env auth cp limit db).1 ≡ ok out
    → Handed db (checkpoint_pull env auth cp limit db).0 auth.epoch out
unfolding checkpoint_pull
checkpoint_pull-Handed env auth cp limit db out h =
    let k = gated_pull env auth cp limit in
    let same = (authorized-ok auth pull_hook_checkpoint k db out h).0 in
    rw same (gated_pull-Handed env auth cp limit db out (rw same at h))
