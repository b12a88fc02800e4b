-- ===== src/Broker/Delivery/Mark.antt =====
-- The legacy marking of injected messages, by message id, of src/broker/delivery.ts.
use xbus.Base.{
  ℕ, suc, List, [], ◌∷◌, Option, none, some, ◌==◌, if◌then◌else◌, update_where, count_where,
}
use xbus.Protocol.Errors.{ok}
use xbus.Broker.Db.{
  Db, Message, Delivery, CheckpointId, from_mark, SessionAuthority, Env, M, ◌>>◌, audit,
  transport_written, reinjection_body_suppressed,
}
use xbus.Broker.Injections.{IssueParams, issue}
use xbus.Broker.Delivery.Sessions.{assert_current_epoch}
use xbus.Broker.Delivery.Checkpoint.{
  message_row, is_pending_of, write, log_write, complete_if_no_response_required, prepend,
}

-- As `write`, stamped with the instance and its fencing token.
abbrev pub write_fenced : Env → SessionAuthority → Message → Delivery → Delivery
write_fenced env auth m d = record (write env auth m d) {
  target_instance_id = some auth.instance_id;
  fencing_token = some auth.fencing_token;
}

-- The log row names the instance.
abbrev pub by_instance : SessionAuthority → SessionAuthority
by_instance auth = record auth { component_instance_id = auth.instance_id }

unfoldable pub mark_fenced : Env → SessionAuthority → Message → Db → Db
unfolding update_where log_write
mark_fenced env auth m db = log_write (by_instance auth) m.message_id (record db {
  deliveries = update_where (is_pending_of m.message_id) (write_fenced env auth m) db.deliveries;
})

-- Without a checkpoint of the caller's, one is made up.
abbrev mark_checkpoint : Option CheckpointId → ℕ → CheckpointId
mark_checkpoint (some cp) n = cp
mark_checkpoint none n = from_mark n

-- An id is drawn for the name that is made up.
abbrev pub draw_name : Option CheckpointId → Db → Db
draw_name (some cp) db = db
draw_name none db = record db { next_id = suc db.next_id }

unfoldable pub mark_injection : SessionAuthority → Option CheckpointId → ℕ → ℕ → IssueParams
mark_injection auth cp id n = record {
  message_id = id;
  recipient_session_id = auth.session_id;
  recipient_epoch = auth.epoch;
  checkpoint_id = mark_checkpoint cp n;
  component_id = auth.instance_id;
  logical_injection_number = 1;
}

unfoldable pub report : Env → Message → Db → Option ℕ → Db × Option ℕ
unfolding audit
report env m db none = (audit reinjection_body_suppressed (some m.message_id) db, none)
report env m db (some id) = (complete_if_no_response_required env m db, some m.message_id)

unfoldable pub mark_message :
    Env → SessionAuthority → Option CheckpointId → Message → Db → Db × Option ℕ
unfolding audit report mark_injection
mark_message env auth cp m db =
    if count_where (is_pending_of m.message_id) db.deliveries == 0
    then (db, none)
    else (let marked = audit transport_written (some m.message_id) (mark_fenced env auth m db) in
        let params = mark_injection auth cp m.message_id marked.next_id in
        let issued = issue env params (draw_name cp marked) in report env m issued.0 issued.1)

-- One message id: an unknown one is passed over.
unfoldable pub mark_of :
    Env → SessionAuthority → Option CheckpointId → Option Message → Db → Db × Option ℕ
mark_of env auth cp none db = (db, none)
mark_of env auth cp (some m) db = mark_message env auth cp m db

unfoldable pub mark_one : Env → SessionAuthority → Option CheckpointId → ℕ → Db → Db × Option ℕ
mark_one env auth cp id db = mark_of env auth cp (message_row id db.messages) db

unfoldable pub mark_injected_for :
    Env → SessionAuthority → Option CheckpointId → List ℕ → Db → Db × List ℕ
mark_injected_for env auth cp [] db = (db, [])
mark_injected_for env auth cp (id ∷ ids) db =
    let (db1, marked) = mark_one env auth cp id db in
    let (db2, rest) = mark_injected_for env auth cp ids db1 in (db2, prepend marked rest)

unfoldable pub mark_all : Env → SessionAuthority → List ℕ → M (List ℕ)
mark_all env auth ids db =
    let (db', marked) = mark_injected_for env auth none ids db in (db', ok marked)

unfoldable pub mark_injected : Env → SessionAuthority → List ℕ → M (List ℕ)
mark_injected env auth ids = assert_current_epoch auth >> mark_all env auth ids
