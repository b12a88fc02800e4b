-- ===== src/Broker/Delivery/Sessions.antt =====
-- The checks of src/broker/delivery.ts on the caller's session, and its activity stamps.
use xbus.Identity.Components.{
  Operation, is_allowed, assert_allowed, assert_allowed-ok, assert_allowed-true,
}
use xbus.Base.{
  arith, ==_refl, inl, inr, Option-cases, ℕ, ◌+◌, ◌*◌, ◌≡◌, ap, ◌∙◌, Bool, true, false, ◌&&◌,
  Option, none, some, ◌==◌, if◌then◌else◌, update_where, first_where,
}
use xbus.Protocol.Errors.{ok, err, session_not_registered, epoch_mismatch}
use xbus.Broker.Readiness.{Readiness, disconnected}
use xbus.Broker.Db.{
  Db, Session, SessionAuthority, Env, M, ◌>>◌, >>-ok, lift, audit, epoch_mismatch_rejected,
}

unfoldable pub session_row : ℕ → Db → Option Session
unfolding first_where
session_row sid db = first_where (λ s. s.session_id == sid) db.sessions

unfoldable pub readiness_of : ℕ → Db → Readiness
unfolding session_row
readiness_of sid db = elim (session_row sid db) [ none ↦ disconnected | some s ↦ s.readiness ]

-- A stale epoch is audited outside any transaction, and refused.
unfoldable pub assert_current_epoch : SessionAuthority → M (Unit {0})
unfolding audit
assert_current_epoch auth db = elim (session_row auth.session_id db) [
  | none ↦ (db, err session_not_registered)
  | some s ↦
      if s.active_epoch == auth.epoch
      then (db, ok tt)
      else (audit epoch_mismatch_rejected none db, err epoch_mismatch)
]

abbrev pub is_unset : Option ℕ → Bool
is_unset none = true
is_unset (some t) = false

-- `MEANINGFUL_ACTIVITY_RETENTION_MS`: 15 days.
abbrev pub activity_retention_ms : ℕ
activity_retention_ms = 15 * 24 * 60 * 60 * 1000

abbrev pub refreshed : Env → Session → Session
refreshed env s = record s {
  last_meaningful_activity_at = env.now;
  expires_at = some (env.now + activity_retention_ms);
  updated_at = env.now;
}

abbrev pub is_unexpired : ℕ → Session → Bool
is_unexpired sid s = s.session_id == sid && is_unset s.expired_at

-- A session that has expired is not revived.
unfoldable pub refresh_activity : Env → ℕ → Db → Db
unfolding update_where
refresh_activity env sid db = record db {
  sessions = update_where (is_unexpired sid) (refreshed env) db.sessions;
}

-- What every method does first: the role's capability, then the caller's epoch.
unfoldable pub authorized : {A : Type 0} → SessionAuthority → Operation → M A → M A
authorized auth op k = do lift (assert_allowed auth.role op); assert_current_epoch auth; k

-- The caller's epoch is its session's.
abbrev pub IsCurrent : SessionAuthority → Db → Type 0
IsCurrent auth db =
    (s : Session) × (session_row auth.session_id db ≡ some s) × (s.active_epoch ≡ auth.epoch)

assert_current_epoch-ok :
    (auth : SessionAuthority) (db : Db) (u : Unit {0})
    → (assert_current_epoch auth db).1 ≡ ok u
    → ((assert_current_epoch auth db).0 ≡ db) × IsCurrent auth db
unfolding assert_current_epoch
assert_current_epoch-ok auth db u h = elim (Option-cases (session_row auth.session_id db)) [
  | inl e ↦ ground arith
  | inr (s, e) ↦ (ground arith, (s, e, ground arith))
]

-- A method that succeeds was called by a role that may call it and in the current epoch, and its
-- body ran on the tables as they were.
pub authorized-ok :
    {A : Type 0} (auth : SessionAuthority) (op : Operation) (k : M A) (db : Db) (a : A)
    → (authorized auth op k db).1 ≡ ok a
    → (authorized auth op k db ≡ k db) × (is_allowed auth.role op ≡ true) × IsCurrent auth db
unfolding authorized
authorized-ok auth op k db a h =
    let step1 =
      >>-ok (lift (assert_allowed auth.role op)) (assert_current_epoch auth >> k) db a h in
    let step2 = >>-ok (assert_current_epoch auth) k db a (rw step1.2 at h) in
    let current = assert_current_epoch-ok auth db step2.0 step2.1 in
    (step1.2 ∙ step2.2 ∙ ap k current.0, assert_allowed-ok auth.role op step1.0 step1.1, current.1)

assert_current_epoch_current :
    (auth : SessionAuthority) (db : Db)
    → IsCurrent auth db
    → assert_current_epoch auth db ≡ (db, ok tt)
unfolding assert_current_epoch
assert_current_epoch_current auth db (s, e, same) =
    rw (e, assert_current_epoch) (rw (same, ==_refl auth.epoch))

-- An allowed role in the current epoch gets to the body.
pub authorized-current :
    {A : Type 0} (auth : SessionAuthority) (op : Operation) (k : M A) (db : Db)
    → is_allowed auth.role op ≡ true
    → IsCurrent auth db
    → authorized auth op k db ≡ k db
unfolding authorized
authorized-current auth op k db allowed current =
    rw (assert_allowed-true auth.role op allowed, assert_current_epoch_current auth db current)
