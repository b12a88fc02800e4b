-- ===== src/Broker/Delivery/Remark.antt =====
-- Marking and redelivery of src/broker/delivery.ts and the moves of deliveries.
use xbus.Base.{ℕ, suc, ◌+◌, refl, List, [], ◌∷◌, Option, none, some, ◌==◌, count_where}
use xbus.Identity.Components.{list_inbox}
use xbus.Broker.Db.{
  Db, Message, CheckpointId, from_redelivery, SessionAuthority, Env, transaction, audit, AuditType,
}
use xbus.Broker.Evolution.{
  delivering, bystanding, moved, Evolves-refl, Evolves-update_where, Advances, Advances-trans,
  Advances-branch, transaction-Advances, >>-Advances,
}
use xbus.Broker.Injections.{issue}
use xbus.Broker.Delivery.Sessions.{refresh_activity, assert_current_epoch}
use xbus.Broker.Delivery.Checkpoint.{is_pending, is_pending_of, log_write, message_row}
use xbus.Broker.Delivery.Evolve.{
  issue-Advances, pending_written, pending_open, and-right, complete-Advances, epoch-Advances,
  authorized-Advances,
}
use xbus.Broker.Delivery.Redeliver.{
  max_logical, reissue, represent, redeliver_injected, redeliver_of, redeliver_message, redeliver,
}
use xbus.Broker.Delivery.Mark.{
  write_fenced, mark_fenced, mark_injection, draw_name, report, mark_message, mark_of, mark_one,
  mark_injected_for, mark_all, mark_injected,
}

mark_fenced-Advances :
    (env : Env) (auth : SessionAuthority) (m : Message) (db : Db)
    → Advances delivering db (mark_fenced env auth m db)
unfolding mark_fenced log_write
mark_fenced-Advances env auth m db =
    Evolves-update_where (is_pending_of m.message_id) (write_fenced env auth m) db.deliveries
      (λ d e.
        let p = and-right (d.message_id == m.message_id) (is_pending d.state) e in
        moved d (write_fenced env auth m d) refl refl refl (pending_written d.state p)
          (pending_open d.state p))

marked_written :
    (env : Env) (auth : SessionAuthority) (m : Message) (db : Db)
    → Advances delivering db
        (audit AuditType.transport_written (some m.message_id) (mark_fenced env auth m db))
unfolding audit
marked_written env auth m db = mark_fenced-Advances env auth m db

report-Advances :
    (env : Env) (m : Message) (db : Db) (o : Option ℕ)
    → Advances delivering db (report env m db o).0
unfolding report audit
report-Advances env m db none = Evolves-refl db.deliveries
report-Advances env m db (some id) = complete-Advances env m db

draw_name-Advances : (cp : Option CheckpointId) (db : Db) → Advances delivering db (draw_name cp db)
draw_name-Advances none db = Evolves-refl db.deliveries
draw_name-Advances (some cp) db = Evolves-refl db.deliveries

mark_message-Advances :
    (env : Env) (auth : SessionAuthority) (cp : Option CheckpointId) (m : Message) (db : Db)
    → Advances delivering db (mark_message env auth cp m db).0
unfolding mark_message
mark_message-Advances env auth cp m db =
    let marked =
      audit AuditType.transport_written (some m.message_id) (mark_fenced env auth m db) in
    let params = mark_injection auth cp m.message_id marked.next_id in
    let named = draw_name cp marked in
    let issued = issue env params named in
    Advances-branch db (count_where (is_pending_of m.message_id) db.deliveries == 0) _ _
      (Evolves-refl db.deliveries)
      (Advances-trans db named (report env m issued.0 issued.1).0
        (Advances-trans db marked named (marked_written env auth m db)
          (draw_name-Advances cp marked))
        (Advances-trans named issued.0 (report env m issued.0 issued.1).0
          (issue-Advances env params named) (report-Advances env m issued.0 issued.1)))

mark_of-Advances :
    (env : Env) (auth : SessionAuthority) (cp : Option CheckpointId) (o : Option Message) (db : Db)
    → Advances delivering db (mark_of env auth cp o db).0
unfolding mark_of
mark_of-Advances env auth cp none db = Evolves-refl db.deliveries
mark_of-Advances env auth cp (some m) db = mark_message-Advances env auth cp m db

mark_injected_for-Advances :
    (env : Env) (auth : SessionAuthority) (cp : Option CheckpointId) (ids : List ℕ) (db : Db)
    → Advances delivering db (mark_injected_for env auth cp ids db).0
unfolding mark_injected_for mark_one
mark_injected_for-Advances env auth cp [] db = Evolves-refl db.deliveries
mark_injected_for-Advances env auth cp (id ∷ ids) db =
    let next = (mark_one env auth cp id db).0 in
    Advances-trans db next (mark_injected_for env auth cp ids next).0
      (mark_of-Advances env auth cp (message_row id db.messages) db)
      (mark_injected_for-Advances env auth cp ids next)

-- Marking a batch of messages, also one that is refused, makes only the moves of a
-- delivering caller, removes no delivery, and changes none that is in a terminal state.
pub mark_injected-Advances :
    (env : Env) (auth : SessionAuthority) (ids : List ℕ) (db : Db)
    → Advances delivering db (mark_injected env auth ids db).0
unfolding mark_injected mark_all
mark_injected-Advances env auth ids db =
    >>-Advances (assert_current_epoch auth) (mark_all env auth ids) db (epoch-Advances auth db)
      (λ db'. mark_injected_for-Advances env auth none ids db')

represent-Advances :
    (env : Env) (auth : SessionAuthority) (m : Message) (r : Db × Option ℕ)
    → Advances bystanding r.0 (represent env auth m r).0
unfolding represent refresh_activity audit
represent-Advances env auth m (db, none) = Evolves-refl db.deliveries
represent-Advances env auth m (db, some id) = Evolves-refl db.deliveries

reissue-Advances :
    (env : Env) (auth : SessionAuthority) (id n : ℕ) (db : Db)
    → Advances bystanding db (reissue env auth id n db).0
unfolding reissue
reissue-Advances env auth id n db =
    issue-Advances env
      (record {
        message_id = id;
        recipient_session_id = auth.session_id;
        recipient_epoch = auth.epoch;
        checkpoint_id = from_redelivery db.next_id;
        component_id = auth.component_instance_id;
        logical_injection_number = n;
      })
      (record db { next_id = suc db.next_id })

redeliver_injected-Advances :
    (env : Env) (auth : SessionAuthority) (m : Message) (db : Db)
    → Advances bystanding db (redeliver_injected env auth m db).0
unfolding redeliver_injected audit
redeliver_injected-Advances env auth m db =
    let n = max_logical m.message_id auth.epoch db.injections in
    let r = reissue env auth m.message_id (n + 1) db in
    Advances-branch db (n == 0) _ (represent env auth m r) (Evolves-refl db.deliveries) (
      Advances-trans db r.0 (represent env auth m r).0
        (reissue-Advances env auth m.message_id (n + 1) db) (represent-Advances env auth m r))

redeliver_of-Advances :
    (env : Env) (auth : SessionAuthority) (o : Option Message) (db : Db)
    → Advances bystanding db (redeliver_of env auth o db).0
unfolding redeliver_of
redeliver_of-Advances env auth none db = Evolves-refl db.deliveries
redeliver_of-Advances env auth (some m) db =
    Advances-branch db (m.recipient_session_id == auth.session_id)
      (redeliver_injected env auth m db) _ (redeliver_injected-Advances env auth m db)
      (Evolves-refl db.deliveries)

-- An explicit redelivery changes no state of a delivery, and no delivery that is in a terminal
-- state.
pub redeliver-Advances :
    (env : Env) (auth : SessionAuthority) (id : ℕ) (db : Db)
    → Advances bystanding db (redeliver env auth id db).0
unfolding redeliver redeliver_message
redeliver-Advances env auth id db =
    authorized-Advances auth list_inbox (transaction (redeliver_message env auth id)) db (λ db'.
      transaction-Advances (redeliver_message env auth id) db'
        (redeliver_of-Advances env auth (message_row id db'.messages) db'))
