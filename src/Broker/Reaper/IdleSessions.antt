-- ===== src/Broker/Reaper/IdleSessions.antt =====
-- `reapExpiredSessions` of src/broker/reaper.ts: sessions without meaningful activity for 15 days,
-- and the deliveries to them.
use xbus.Base.{
  ℕ, ◌+◌, Bool, true, false, not, ◌&&◌, ◌||◌, List, [], ◌∷◌, Option, none, some, ◌==◌,
  if◌then◌else◌, set_and_le, update_where, count_where, select_where, exists_where, first_where,
  order_by,
}
use xbus.Protocol.States.{DeliveryState}
use xbus.Broker.Readiness.{disconnected}
use xbus.Broker.Db.{
  Db, Message, Delivery, Session, FailureCategory, recipient_inactive_15_days,
  reply_pending_unanswered_15_days, ComponentState, live, closed, ComponentInstance, Alias,
  PhysicalEdge, audit, session_expired,
}
use xbus.Broker.Delivery.Sessions.{is_unset}
use xbus.Broker.Delivery.Checkpoint.{message_row}
use xbus.Broker.Reaper.AckTimeouts.{ReaperEnv, is_held, expire_lease}

-- `OPERATOR_SESSION_ID` of src/broker/operator.ts, as the number that stands for it.
abbrev pub operator_session_id : ℕ
operator_session_id = 0

abbrev pub or_zero : Option ℕ → ℕ
or_zero none = 0
or_zero (some n) = n

abbrev pub is_idle : ℕ → Session → Bool
is_idle now s =
    is_unset s.expired_at
    && (set_and_le s.expires_at now && not (s.session_id == operator_session_id))

unfoldable pub idle_sessions : ReaperEnv → Db → List Session
idle_sessions env db =
    order_by (λ s. or_zero s.expires_at) (select_where (is_idle env.now) db.sessions)

abbrev pub is_unexpired : ℕ → Session → Bool
is_unexpired sid s = s.session_id == sid && is_unset s.expired_at

abbrev pub make_dormant : ℕ → Session → Session
make_dormant now s = record s {
  expired_at = some now;
  expiration_reason = some recipient_inactive_15_days;
  readiness = disconnected;
  pending_name_expires_at = none;
  updated_at = now;
}

abbrev pub is_live : ComponentState → Bool
is_live live = true
is_live _ = false

abbrev pub close : ℕ → ComponentInstance → ComponentInstance
close now c = record c { state = closed; disconnected_at = some now }

abbrev pub retire_alias : ℕ → Alias → Alias
retire_alias now a = record a { is_active = false; retired_at = some now }

abbrev pub is_number : Option ℕ → ℕ → Bool
is_number none id = false
is_number (some n) id = id == n

abbrev pub has_identity : Option Session → ℕ → Bool
has_identity none id = false
has_identity (some s) id = is_number s.logical_identity_id id

-- The edges of the redirect cache that touch the session.
abbrev pub touches : ℕ → List Session → PhysicalEdge → Bool
touches sid ss e =
    e.canonical_session_id == sid
    || (e.physical_session_id == sid
        || has_identity (first_where (λ s. s.session_id == sid) ss) e.logical_identity_id)

-- `state IN ('queued','retry_wait','transport_written')`.
unfoldable pub is_undelivered : DeliveryState → Bool
is_undelivered DeliveryState.queued = true
is_undelivered DeliveryState.retry_wait = true
is_undelivered DeliveryState.transport_written = true
is_undelivered _ = false

abbrev pub is_undelivered_to : ℕ → Delivery → Bool
is_undelivered_to sid d = d.recipient_session_id == sid && is_undelivered d.state

abbrev pub dead_letter_inactive : ℕ → Delivery → Delivery
dead_letter_inactive now d = record d {
  state = DeliveryState.dead_letter;
  failure_category = some recipient_inactive_15_days;
  next_attempt_at = none;
  lease_expires_at = none;
  updated_at = now;
}

unfoldable pub is_accepted : DeliveryState → Bool
is_accepted DeliveryState.accepted = true
is_accepted _ = false

abbrev pub message_requires_reply : Option Message → Bool
message_requires_reply none = false
message_requires_reply (some m) = m.requires_reply

-- Acknowledged, its reply still owed.
abbrev pub owes_reply : ℕ → List Message → Delivery → Bool
owes_reply sid ms d =
    d.recipient_session_id == sid
    && (is_accepted d.state && message_requires_reply (message_row d.message_id ms))

abbrev pub expire_unanswered : ℕ → Delivery → Delivery
expire_unanswered now d = record d {
  state = DeliveryState.expired;
  failure_category = some reply_pending_unanswered_15_days;
  next_attempt_at = none;
  lease_expires_at = none;
  updated_at = now;
}

abbrev pub is_inactive_category : Option FailureCategory → Bool
is_inactive_category (some recipient_inactive_15_days) = true
is_inactive_category _ = false

abbrev pub is_dead : DeliveryState → Bool
is_dead DeliveryState.dead_letter = true
is_dead _ = false

abbrev pub is_tombstoned : ℕ → ℕ → Delivery → Bool
is_tombstoned sid id d =
    d.message_id == id
    && (d.recipient_session_id == sid
        && (is_dead d.state && is_inactive_category d.failure_category))

unfoldable pub close_session : ℕ → ℕ → Db → Db
unfolding update_where select_where first_where
close_session now sid db = record db {
  component_instances =
      update_where (λ c. c.session_id == sid && is_live c.state) (close now) db.component_instances;
  aliases = update_where (λ a. a.session_id == sid && a.is_active) (retire_alias now) db.aliases;
  physical_session_map =
      select_where (λ e. not (touches sid db.sessions e)) db.physical_session_map;
}

unfoldable pub end_deliveries : ℕ → ℕ → Db → Db
unfolding update_where is_undelivered is_accepted message_row
end_deliveries now sid db = record db {
  deliveries =
      update_where (owes_reply sid db.messages) (expire_unanswered now)
        (update_where (is_undelivered_to sid) (dead_letter_inactive now) db.deliveries);
}

unfoldable pub release_tombstoned : ℕ → ℕ → Db → Db
unfolding update_where exists_where
release_tombstoned now sid db = record db {
  delivery_leases =
      update_where
        (λ l. is_held l.state && exists_where (is_tombstoned sid l.message_id) db.deliveries)
        (expire_lease now) db.delivery_leases;
}

-- One round of the loop, on the session's id: the compare-and-set on `expired_at` first.
unfoldable pub expire_session : ReaperEnv → ℕ → Db × ℕ → Db × ℕ
unfolding count_where update_where close_session end_deliveries release_tombstoned audit
expire_session env sid (db, n) =
    let dormant = record db {
      sessions = update_where (is_unexpired sid) (make_dormant env.now) db.sessions;
    } in
    if count_where (is_unexpired sid) db.sessions == 0 then (db, n) else (
      audit session_expired none (
          release_tombstoned env.now sid
            (end_deliveries env.now sid (close_session env.now sid dormant))),
      n + 1,
    )

unfoldable pub expire_sessions : ReaperEnv → List Session → Db × ℕ → Db × ℕ
expire_sessions env [] s = s
expire_sessions env (x ∷ xs) s = expire_sessions env xs (expire_session env x.session_id s)

unfoldable pub reap_expired_sessions : ReaperEnv → Db → Db × ℕ
reap_expired_sessions env db = expire_sessions env (idle_sessions env db) (db, 0)
