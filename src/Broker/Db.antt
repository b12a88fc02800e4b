-- ===== src/Broker/Db.antt =====
-- The tables of src/database/migrations.ts that the delivery core reads and writes, as lists of
-- rows, and operations on them that may throw. Ids are opaque and only compared, so they are
-- numbers; instants are milliseconds. `next_id` is the state of the injected `IdGen`.
use xbus.Base.{ℕ, suc, ◌≡◌, refl, Bool, List, ◌∷◌, Option, String}
use xbus.Protocol.Errors.{XbusErrorCode, Result, ok, err}
use xbus.Protocol.States.{DeliveryState}
use xbus.Identity.Components.{ComponentRole}
use xbus.Broker.Readiness.{Readiness}
use xbus.Broker.Controls.{SessionControl, BlockedPeer}

pub data Kind : Type 0 where
  request event reply cancel system : Kind

pub record Message : Type 0 where
  pub message_id : ℕ
  pub sender_session_id : ℕ
  pub sender_alias : String
  pub recipient_session_id : ℕ
  pub recipient_alias : String
  pub kind : Kind
  pub correlation_id : ℕ
  pub causation_id : Option ℕ
  pub recipient_sequence : ℕ
  pub idempotency_key : Option ℕ
  pub body_text : String
  pub requires_ack : Bool
  pub requires_reply : Bool
  pub created_at : ℕ
  pub expires_at : Option ℕ
  pub thread_id : Option ℕ
  pub thread_sequence : ℕ

pub data FailureCategory : Type 0 where
  ack_timeout ack_timeout_exhausted expired_before_injection : FailureCategory
  recipient_inactive_15_days reply_pending_unanswered_15_days discarded : FailureCategory

pub record Delivery : Type 0 where
  pub delivery_id : ℕ
  pub message_id : ℕ
  pub recipient_session_id : ℕ
  pub state : DeliveryState
  pub target_instance_id : Option ℕ
  pub target_generation : Option ℕ
  pub fencing_token : Option ℕ
  pub attempt : ℕ
  pub attempt_transport : ℕ
  pub attempt_injection : ℕ
  pub attempt_ack_timeout : ℕ
  pub attempt_reply : ℕ
  pub rejected_reason : Option String
  pub failure_category : Option FailureCategory
  pub lease_acquired_at : Option ℕ
  pub lease_expires_at : Option ℕ
  pub transport_written_at : Option ℕ
  pub application_accepted_at : Option ℕ
  pub application_completed_at : Option ℕ
  pub next_attempt_at : Option ℕ
  pub created_at : ℕ
  pub updated_at : ℕ

-- `checkpoint_id`: a caller's, or one that the broker makes up with a prefix of its own.
pub data CheckpointId : Type 0 where
  from_caller from_redelivery from_mark : ℕ → CheckpointId

pub data ReceiptOp : Type 0 where
  ack_op reply_op : ReceiptOp

pub record Injection : Type 0 where
  pub injection_id : ℕ
  pub message_id : ℕ
  pub recipient_session_id : ℕ
  pub recipient_epoch : ℕ
  pub checkpoint_id : CheckpointId
  pub injected_by_component_id : ℕ
  pub injected_at : ℕ
  pub expires_at : ℕ
  pub logical_injection_number : ℕ
  pub consumed_at : Option ℕ
  pub consumed_op : Option ReceiptOp

pub data ReceiptStatus : Type 0 where
  accepted rejected completed failed partial : ReceiptStatus

pub record Receipt : Type 0 where
  pub receipt_id : ℕ
  pub message_id : ℕ
  pub receiver_session_id : ℕ
  pub receiver_instance_id : ℕ
  pub receiver_generation : ℕ
  pub receipt_type : ReceiptOp
  pub status : ReceiptStatus
  pub note : Option String
  pub created_at : ℕ

pub data NameState : Type 0 where
  unnamed pending active retired : NameState

-- The columns of `sessions` that sending, delivery and expiry use.
pub record Session : Type 0 where
  pub session_id : ℕ
  pub automatic_alias : String
  pub project_alias : Option String
  pub active_epoch : ℕ
  pub readiness : Readiness
  pub last_meaningful_activity_at : ℕ
  pub expires_at : Option ℕ
  pub expired_at : Option ℕ
  pub expiration_reason : Option FailureCategory
  pub session_name_state : NameState
  pub session_name : Option String
  pub normalized_session_name : Option String
  pub logical_identity_id : Option ℕ
  pub pending_name_expires_at : Option ℕ
  pub updated_at : ℕ

pub data AuditType : Type 0 where
  epoch_mismatch_rejected injection_deferred_not_ready transport_written : AuditType
  reinjection_body_suppressed delivery_completed_no_response_required : AuditType
  redelivery_refused_not_injected explicit_redelivery conflicting_ack_rejected : AuditType
  cas_conflict ack reply reply_rejected_recipient_expired : AuditType
  cancelled_before_delivery cancellation_requested_after_injection : AuditType
  ack_timeout_dead_letter ack_timeout_requeue expired_before_injection : AuditType
  session_expired leases_reclaimed dead_letter_redrive dead_letter_discard : AuditType
  pending_name_reservation_lapsed schedule_runs_pruned message_sent : AuditType
  send_rejected_recipient_expired blocked_send_rejected : AuditType

pub record AuditEvent : Type 0 where
  pub audit_id : ℕ
  pub event_type : AuditType
  pub message_id : Option ℕ

pub record WriteLog : Type 0 where
  pub write_id : ℕ
  pub delivery_id : ℕ
  pub message_id : ℕ
  pub recipient_instance_id : ℕ

-- `threads.last_thread_sequence` with the cursor of `thread_sequences`.
pub record Thread : Type 0 where
  pub thread_id : ℕ
  pub next_sequence : ℕ
  pub last_thread_sequence : ℕ

pub record ThreadParticipant : Type 0 where
  pub thread_id : ℕ
  pub session_id : ℕ
  pub last_read_thread_seq : ℕ

pub record RecipientSequence : Type 0 where
  pub recipient_session_id : ℕ
  pub next_sequence : ℕ

pub data LeaseState : Type 0 where
  lease_held lease_expired : LeaseState

pub record Lease : Type 0 where
  pub lease_id : ℕ
  pub message_id : ℕ
  pub expires_at : ℕ
  pub released_at : Option ℕ
  pub state : LeaseState

pub data ComponentState : Type 0 where
  live superseded closed : ComponentState

pub record ComponentInstance : Type 0 where
  pub component_instance_id : ℕ
  pub session_id : ℕ
  pub disconnected_at : Option ℕ
  pub state : ComponentState

pub record Alias : Type 0 where
  pub alias_id : ℕ
  pub alias : String
  pub alias_ci : String
  pub is_global : Bool
  pub session_id : ℕ
  pub is_active : Bool
  pub retired_at : Option ℕ

pub record PhysicalEdge : Type 0 where
  pub physical_session_id : ℕ
  pub canonical_session_id : ℕ
  pub logical_identity_id : ℕ

pub data RunState : Type 0 where
  claimed sent delivered run_completed skipped run_failed : RunState

pub record ScheduleRun : Type 0 where
  pub run_id : ℕ
  pub schedule_id : ℕ
  pub scheduled_for : ℕ
  pub state : RunState

pub record Db : Type 0 where
  pub sessions : List Session
  pub session_controls : List SessionControl
  pub blocked_peers : List BlockedPeer
  pub messages : List Message
  pub deliveries : List Delivery
  pub injections : List Injection
  pub receipts : List Receipt
  pub audit_events : List AuditEvent
  pub transport_write_log : List WriteLog
  pub threads : List Thread
  pub thread_participants : List ThreadParticipant
  pub recipient_sequences : List RecipientSequence
  pub delivery_leases : List Lease
  pub component_instances : List ComponentInstance
  pub aliases : List Alias
  pub physical_session_map : List PhysicalEdge
  pub schedule_runs : List ScheduleRun
  pub next_id : ℕ

-- `SessionAuthority`, derived from the authenticated connection.
pub record SessionAuthority : Type 0 where
  pub session_id : ℕ
  pub instance_id : ℕ
  pub component_instance_id : ℕ
  pub role : ComponentRole
  pub epoch : ℕ
  pub fencing_token : ℕ

-- The injected clock's instant, which stands still within an operation, and the options of
-- `DeliveryOps` and `ReceiptStore`.
pub record Env : Type 0 where
  pub now : ℕ
  pub ack_deadline_ms : ℕ
  pub receipt_ttl_ms : ℕ
  pub require_receipt : Bool

-- An operation changes the tables, and returns or throws. What it changed before it threw stays.
abbrev pub M : Type 0 → Type 0
M A = Db → Db × Result A

abbrev pub continue : {A B : Type 0} → Db → Result A → (A → M B) → Db × Result B
continue db (ok a) f = f a db
continue db (err e) f = (db, err e)

infixl 5 ◌>>=◌ ◌>>◌
abbrev pub ◌>>=◌ : {A B : Type 0} → M A → (A → M B) → M B
◌>>=◌ m f db = let (db', r) = m db in continue db' r f

abbrev pub ◌>>◌ : {B : Type 0} → M (Unit {0}) → M B → M B
◌>>◌ m k db = let (db', r) = m db in continue db' r (λ _. k)

abbrev pub pure : {A : Type 0} → A → M A
pure a db = (db, ok a)

abbrev pub throw : {A : Type 0} → XbusErrorCode → M A
throw e db = (db, err e)

abbrev pub lift : {A : Type 0} → Result A → M A
lift r db = (db, r)

abbrev pub rolled_back : {A : Type 0} → Db → Db → Result A → Db × Result A
rolled_back before db (ok a) = (db, ok a)
rolled_back before db (err e) = (before, err e)

-- `db.transaction`: a throw rolls every change back, audit rows included.
abbrev pub transaction : {A : Type 0} → M A → M A
transaction m db = let (db', r) = m db in rolled_back db db' r

-- `audit(…)`: one row, under the next id.
unfoldable pub audit : AuditType → Option ℕ → Db → Db
audit t m db = record db {
  audit_events = record { audit_id = db.next_id; event_type = t; message_id = m } ∷ db.audit_events;
  next_id = suc db.next_id;
}

continue-ok :
    {A B : Type 0} (db : Db) (r : Result A) (f : A → M B) (b : B)
    → (continue db r f).1 ≡ ok b
    → (a : A) × (r ≡ ok a) × (continue db r f ≡ f a db)
continue-ok db (ok a) f b h = (a, refl, refl)
continue-ok db (err e) f b h = cc

-- Inversion of a chain that returns.
pub >>=-ok :
    {A B : Type 0} (m : M A) (f : A → M B) (db : Db) (b : B)
    → (◌>>=◌ m f db).1 ≡ ok b
    → (a : A) × ((m db).1 ≡ ok a) × (◌>>=◌ m f db ≡ f a (m db).0)
>>=-ok m f db b h = continue-ok (m db).0 (m db).1 f b h

pub >>-ok :
    {B : Type 0} (m : M (Unit {0})) (k : M B) (db : Db) (b : B)
    → (◌>>◌ m k db).1 ≡ ok b
    → (u : Unit {0}) × ((m db).1 ≡ ok u) × (◌>>◌ m k db ≡ k (m db).0)
>>-ok m k db b h = continue-ok (m db).0 (m db).1 (λ _. k) b h

rolled_back-ok :
    {A : Type 0} (before db : Db) (r : Result A) (a : A)
    → (rolled_back before db r).1 ≡ ok a
    → (r ≡ ok a) × (rolled_back before db r ≡ (db, r))
rolled_back-ok before db (ok b) a h = (h, refl)
rolled_back-ok before db (err e) a h = cc

rolled_back-err :
    {A : Type 0} (before db : Db) (r : Result A) (e : XbusErrorCode)
    → (rolled_back before db r).1 ≡ err e
    → (rolled_back before db r).0 ≡ before
rolled_back-err before db (ok b) e h = cc
rolled_back-err before db (err x) e h = refl

pub transaction-ok :
    {A : Type 0} (m : M A) (db : Db) (a : A)
    → (transaction m db).1 ≡ ok a
    → ((m db).1 ≡ ok a) × (transaction m db ≡ m db)
transaction-ok m db a h = rolled_back-ok db (m db).0 (m db).1 a h

pub transaction-err :
    {A : Type 0} (m : M A) (db : Db) (e : XbusErrorCode)
    → (transaction m db).1 ≡ err e
    → (transaction m db).0 ≡ db
transaction-err m db e h = rolled_back-err db (m db).0 (m db).1 e h
