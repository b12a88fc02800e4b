-- ===== src/Broker/Delivery/Evolve.antt =====
-- Checkpoint pulls of src/broker/delivery.ts and the moves of deliveries.
use xbus.Base.{
  ℕ, ◌≡◌, refl, Bool, true, false, ◌&&◌, ◌||◌, List, [], ◌∷◌, Option, none, some, arith, ◌==◌,
  if◌then◌else◌, count_where,
}
use xbus.Protocol.Errors.{ok}
use xbus.Protocol.States.{DeliveryState, is_terminal}
use xbus.Identity.Components.{Operation, assert_allowed, pull_hook_checkpoint}
use xbus.Broker.Readiness.{accepts_injection}
use xbus.Broker.Controls.{auto_delivery_enabled}
use xbus.Broker.Db.{
  Db, Message, Delivery, CheckpointId, SessionAuthority, Env, M, ◌>>◌, lift, audit,
  injection_deferred_not_ready,
}
use xbus.Broker.Evolution.{
  Caller, delivering, Moves, one_move, hand_over, hand_over_again, need_nothing, Later, moved,
  Evolves-update_where, Evolves-refl, Advances, Advances-trans, Advances-same, Advances-if,
  Advances-branch, Advances-update, >>-Advances,
}
use xbus.Broker.Injections.{IssueParams, issue}
use xbus.Broker.Delivery.Sessions.{authorized, assert_current_epoch, refresh_activity, readiness_of}
use xbus.Broker.Delivery.Checkpoint.{
  is_completable, needs_no_ack, message_row, complete_written, is_pending, is_pending_of,
  is_written, write, mark_written, first_injection, present, complete,
  complete_if_no_response_required, inject_message, inject_all, refresh_if_any,
  pending_for_session_id, capped, pull_pending, note_written, checkpoint_pull_forced, gated_pull,
  checkpoint_pull, manual_pull, process_next,
}

pub issue-Advances :
    {op : Caller} (env : Env) (p : IssueParams) (db : Db) → Advances op db (issue env p db).0
unfolding issue
issue-Advances env p db = Advances-same db (issue env p db).0 (ground arith)

-- A pending delivery may be written.
pub pending_written :
    (s : DeliveryState) → is_pending s ≡ true → Moves delivering s DeliveryState.transport_written
unfolding is_pending
pending_written DeliveryState.queued h = one_move hand_over
pending_written DeliveryState.retry_wait h = one_move hand_over_again
pending_written _ h = cc

pub pending_open : (s : DeliveryState) → is_pending s ≡ true → is_terminal s ≡ false
unfolding is_pending is_terminal
pending_open s h = ground arith

pub written_of : (s : DeliveryState) → is_written s ≡ true → s ≡ DeliveryState.transport_written
unfolding is_written
written_of s h = ground arith

pub and-right : (a b : Bool) → (a && b) ≡ true → b ≡ true
and-right a b h = ground arith

pub and-left : (a b : Bool) → (a && b) ≡ true → a ≡ true
and-left a b h = ground arith

write-Later :
    (env : Env) (auth : SessionAuthority) (m : Message) (d : Delivery)
    → is_pending_of m.message_id d ≡ true
    → Later delivering d (write env auth m d)
write-Later env auth m d h =
    let p = and-right (d.message_id == m.message_id) (is_pending d.state) h in
    moved d (write env auth m d) refl refl refl (pending_written d.state p) (pending_open d.state p)

mark_written-Advances :
    (env : Env) (auth : SessionAuthority) (m : Message) (db : Db)
    → Advances delivering db (mark_written env auth m db)
unfolding mark_written
mark_written-Advances env auth m db =
    Evolves-update_where (is_pending_of m.message_id) (write env auth m) db.deliveries
      (write-Later env auth m)

complete-Later :
    (env : Env) (d : Delivery) → is_written d.state ≡ true → Later delivering d (complete env d)
unfolding is_terminal
complete-Later env d h =
    let w = written_of d.state h in
    moved d (complete env d) refl refl refl (rw w (one_move need_nothing)) (rw w)

complete_written-Advances :
    (env : Env) (m : Message) (db : Db) → Advances delivering db (complete_written env m db)
unfolding complete_written
complete_written-Advances env m db =
    Advances-update db (is_completable m db.messages) (complete env) (λ d h. complete-Later env d (
      and-left (is_written d.state) (needs_no_ack (message_row m.message_id db.messages))
        (and-right (d.message_id == m.message_id) _ h)))

pub complete-Advances :
    (env : Env) (m : Message) (db : Db)
    → Advances delivering db (complete_if_no_response_required env m db)
unfolding complete_if_no_response_required
complete-Advances env m db =
    Advances-if db (m.requires_ack || m.requires_reply) db _ (Evolves-refl db.deliveries) (
      Advances-if db (count_where (is_completable m db.messages) db.deliveries == 0) db
        (complete_written env m db) (Evolves-refl db.deliveries)
        (complete_written-Advances env m db))

present-Advances :
    (noted : Bool) (env : Env) (m : Message) (db : Db) (o : Option ℕ)
    → Advances delivering db (present noted env m db o).0
unfolding present audit
present-Advances noted env m db none = Evolves-refl db.deliveries
present-Advances noted env m db (some id) =
    complete-Advances env m (note_written noted m.message_id db)

inject_message-Advances :
    (noted : Bool) (env : Env) (auth : SessionAuthority) (cp : CheckpointId) (m : Message) (db : Db)
    → Advances delivering db (inject_message noted env auth cp m db).0
unfolding inject_message
inject_message-Advances noted env auth cp m db =
    let marked = mark_written env auth m db in
    let issued = issue env (first_injection auth cp m) marked in
    let handed = present noted env m issued.0 issued.1 in
    Advances-branch db (count_where (is_pending_of m.message_id) db.deliveries == 0) (db, none)
      handed (Evolves-refl db.deliveries)
      (Advances-trans db marked handed.0 (mark_written-Advances env auth m db) (
        Advances-trans marked issued.0 handed.0
          (issue-Advances env (first_injection auth cp m) marked)
          (present-Advances noted env m issued.0 issued.1)))

inject_all-Advances :
    (noted : Bool) (env : Env) (auth : SessionAuthority) (cp : CheckpointId) (ms : List Message)
    (db : Db)
    → Advances delivering db (inject_all noted env auth cp ms db).0
unfolding inject_all
inject_all-Advances noted env auth cp [] db = Evolves-refl db.deliveries
inject_all-Advances noted env auth cp (m ∷ ms) db =
    let middle = (inject_message noted env auth cp m db).0 in
    Advances-trans db middle (inject_all noted env auth cp ms middle).0
      (inject_message-Advances noted env auth cp m db)
      (inject_all-Advances noted env auth cp ms middle)

refresh-Advances :
    {op : Caller} {A : Type 0} (env : Env) (sid : ℕ) (out : List A) (db : Db)
    → Advances op db (refresh_if_any env sid out db)
unfolding refresh_activity
refresh-Advances env sid [] db = Evolves-refl db.deliveries
refresh-Advances env sid (x ∷ xs) db = Evolves-refl db.deliveries

pull_pending-Advances :
    (noted : Bool) (env : Env) (auth : SessionAuthority) (cp : CheckpointId) (limit : ℕ) (db : Db)
    → Advances delivering db (pull_pending noted env auth cp limit db).0
unfolding pull_pending
pull_pending-Advances noted env auth cp limit db =
    let ms = pending_for_session_id env auth.session_id (capped limit) db in
    let r = inject_all noted env auth cp ms db in
    Advances-trans db r.0 (refresh_if_any env auth.session_id r.1 r.0)
      (inject_all-Advances noted env auth cp ms db) (refresh-Advances env auth.session_id r.1 r.0)

gated-Advances :
    (env : Env) (auth : SessionAuthority) (cp : CheckpointId) (limit : ℕ) (db : Db)
    → Advances delivering db (gated_pull env auth cp limit db).0
unfolding gated_pull audit
gated-Advances env auth cp limit db =
    let forced = pull_pending true env auth cp limit db in
    let enabled = auto_delivery_enabled db.session_controls auth.session_id in
    Advances-branch db (accepts_injection (readiness_of auth.session_id db))
      (if enabled then forced else (db, ok [])) (audit injection_deferred_not_ready none db, ok [])
      (Advances-branch db enabled forced (db, ok [])
        (pull_pending-Advances true env auth cp limit db) (Evolves-refl db.deliveries))
      (Evolves-refl db.deliveries)

manual-Advances :
    (env : Env) (auth : SessionAuthority) (cp : CheckpointId) (db : Db)
    → Advances delivering db (manual_pull env auth cp db).0
unfolding manual_pull audit checkpoint_pull_forced
manual-Advances env auth cp db =
    Advances-branch db (accepts_injection (readiness_of auth.session_id db))
      (checkpoint_pull_forced env auth cp 1 db) (audit injection_deferred_not_ready none db, ok [])
      (pull_pending-Advances false env auth cp 1 db) (Evolves-refl db.deliveries)

pub epoch-Advances :
    {op : Caller} (auth : SessionAuthority) (db : Db)
    → Advances op db (assert_current_epoch auth db).0
unfolding assert_current_epoch
epoch-Advances auth db = Advances-same db (assert_current_epoch auth db).0 (ground arith)

pub authorized-Advances :
    {by : Caller} {A : Type 0} (auth : SessionAuthority) (op : Operation) (k : M A) (db : Db)
    → ((db' : Db) → Advances by db' (k db').0)
    → Advances by db (authorized auth op k db).0
unfolding authorized
authorized-Advances auth op k db h =
    >>-Advances (lift (assert_allowed auth.role op)) (assert_current_epoch auth >> k) db
      (Evolves-refl db.deliveries)
      (λ db'. >>-Advances (assert_current_epoch auth) k db' (epoch-Advances auth db') h)

-- A checkpoint pull, also one that is refused, makes only the moves of a delivering
-- caller, removes no delivery, and changes none that is in a terminal state.
pub checkpoint_pull-Advances :
    (env : Env) (auth : SessionAuthority) (cp : CheckpointId) (limit : ℕ) (db : Db)
    → Advances delivering db (checkpoint_pull env auth cp limit db).0
unfolding checkpoint_pull
checkpoint_pull-Advances env auth cp limit db =
    authorized-Advances auth pull_hook_checkpoint (gated_pull env auth cp limit) db
      (gated-Advances env auth cp limit)

-- A manual step, also one that is refused, makes only the moves of a delivering
-- caller, removes no delivery, and changes none that is in a terminal state.
pub process_next-Advances :
    (env : Env) (auth : SessionAuthority) (cp : CheckpointId) (db : Db)
    → Advances delivering db (process_next env auth cp db).0
unfolding process_next
process_next-Advances env auth cp db =
    authorized-Advances auth pull_hook_checkpoint (manual_pull env auth cp) db
      (manual-Advances env auth cp)
