-- ===== src/Broker/Reaper/Operator.antt =====
-- The operator's session and the expiry of src/broker/reaper.ts.
use xbus.Base.{
  ℕ, refl, ◌∙◌, ◌≡◌, inl, inr, true, false, List, [], ◌∷◌, arith, ◌==◌, Bool-cases, All,
  All-select_where, All-order_by, first_where-update_where-other, count_where, select_where,
}
use xbus.Broker.Db.{Db, Session, audit}
use xbus.Broker.Delivery.Sessions.{session_row}
use xbus.Broker.Reaper.AckTimeouts.{ReaperEnv}
use xbus.Broker.Reaper.IdleSessions.{
  close_session, end_deliveries, release_tombstoned, is_idle, is_unexpired, make_dormant,
  expire_session, expire_sessions, idle_sessions, or_zero, reap_expired_sessions,
  operator_session_id,
}

expire_session-other :
    (env : ReaperEnv) (sid other : ℕ) (db : Db) (n : ℕ)
    → (other == sid) ≡ false
    → session_row sid (expire_session env other (db, n)).0 ≡ session_row sid db
unfolding expire_session close_session end_deliveries release_tombstoned audit session_row
expire_session-other env sid other db n h =
    elim (Bool-cases (count_where (is_unexpired other) db.sessions == 0)) [
      | inl e ↦ rw e
      | inr e ↦ rw e (
          first_where-update_where-other (λ (s : Session). s.session_id == sid) (is_unexpired other)
            (make_dormant env.now) db.sessions (λ s k. ground arith) (λ s. refl))
    ]

loop-other :
    (env : ReaperEnv) (sid : ℕ) (xs : List Session) (s : Db × ℕ)
    → All (λ (x : Session). (x.session_id == sid) ≡ false) xs
    → session_row sid (expire_sessions env xs s).0 ≡ session_row sid s.0
unfolding expire_sessions
loop-other env sid [] s h = refl
loop-other env sid (x ∷ xs) s h =
    loop-other env sid xs (expire_session env x.session_id s) h.1
    ∙ expire_session-other env sid x.session_id s.0 s.1 h.0

not-operator :
    (now : ℕ) (s : Session) → is_idle now s ≡ true → (s.session_id == operator_session_id) ≡ false
not-operator now s h = ground arith

-- The pass leaves the operator's session as it was, whatever its row says of expiry.
pub reap_expired_sessions_operator :
    (env : ReaperEnv) (db : Db)
    → session_row operator_session_id (reap_expired_sessions env db).0
      ≡ session_row operator_session_id db
unfolding reap_expired_sessions idle_sessions
reap_expired_sessions_operator env db =
    loop-other env operator_session_id (idle_sessions env db) (db, 0)
      (All-order_by (λ (s : Session). (s.session_id == operator_session_id) ≡ false)
        (λ s. or_zero s.expires_at) (select_where (is_idle env.now) db.sessions)
        (All-select_where (λ (s : Session). (s.session_id == operator_session_id) ≡ false)
          (is_idle env.now) db.sessions (λ s k. not-operator env.now s k)))
