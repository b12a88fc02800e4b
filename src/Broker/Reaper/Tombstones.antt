-- ===== src/Broker/Reaper/Tombstones.antt =====
-- What an expired session leaves behind, by src/broker/reaper.ts.
use xbus.Protocol.States.{DeliveryState}
use xbus.Base.{
  Bool, ℕ, ◌≢◌, ==_iff, some, refl, sym, ◌∙◌, ◌<◌, ◌≡◌, ◌⊎◌, inl, inr, true, false, List, [], ◌∷◌,
  arith, ◌==◌, ==_refl, Bool-cases, All, All-weaken, All-update_where, All-order_by, count_where,
  update_where, select_where,
}
use xbus.Broker.Db.{Db, Message, Delivery, Session, audit}
use xbus.Broker.Delivery.Checkpoint.{message_row}
use xbus.Broker.Delivery.Sessions.{is_unset}
use xbus.Broker.Delivery.Evolve.{and-left}
use xbus.Broker.Reaper.AckTimeouts.{ReaperEnv}
use xbus.Broker.Reaper.IdleSessions.{
  is_undelivered, is_undelivered_to, dead_letter_inactive, is_accepted, owes_reply,
  expire_unanswered, close_session, end_deliveries, release_tombstoned, is_idle, is_unexpired,
  make_dormant, expire_session, expire_sessions, idle_sessions, or_zero, reap_expired_sessions,
}

-- Nothing that is addressed to the session by this delivery is still to be delivered or answered.
record IsEnded (sid : ℕ) (ms : List Message) (d : Delivery) : Type 0 where
  delivered : is_undelivered_to sid d ≡ false
  answered : owes_reply sid ms d ≡ false

dead-IsEnded :
    (sid now : ℕ) (ms : List Message) (d : Delivery) → IsEnded sid ms (dead_letter_inactive now d)
unfolding is_undelivered is_accepted
dead-IsEnded sid now ms d = record { delivered = ground arith; answered = ground arith }

expired-IsEnded :
    (sid now : ℕ) (ms : List Message) (d : Delivery) → IsEnded sid ms (expire_unanswered now d)
unfolding is_undelivered is_accepted
expired-IsEnded sid now ms d = record { delivered = ground arith; answered = ground arith }

abbrev Ended : ℕ → List Message → List Delivery → Type 0
Ended sid ms ds = All (λ d. IsEnded sid ms d) ds

abbrev ended_deliveries : ℕ → ℕ → List Message → List Delivery → List Delivery
ended_deliveries now sid ms ds =
    update_where (owes_reply sid ms) (expire_unanswered now)
      (update_where (is_undelivered_to sid) (dead_letter_inactive now) ds)

ends :
    (now sid : ℕ) (ms : List Message) (ds : List Delivery)
    → Ended sid ms (ended_deliveries now sid ms ds)
unfolding update_where is_accepted
ends now sid ms [] = tt
ends now sid ms (d ∷ ds) = elim (Bool-cases (is_undelivered_to sid d)) [
  | inl hit ↦
      let dead = dead-IsEnded sid now ms d in rw (hit, dead.answered) (dead, ends now sid ms ds)
  | inr shut ↦ elim (Bool-cases (owes_reply sid ms d)) [
    | inl owes ↦ rw (shut, owes) (expired-IsEnded sid now ms d, ends now sid ms ds)
    | inr free ↦ rw (shut, free) (record { delivered = shut; answered = free }, ends now sid ms ds)
  ]
]

keeps :
    (now sid other : ℕ) (ms : List Message) (ds : List Delivery)
    → Ended sid ms ds
    → Ended sid ms (ended_deliveries now other ms ds)
keeps now sid other ms ds h =
    All-update_where (λ d. IsEnded sid ms d) (owes_reply other ms) (expire_unanswered now)
      (update_where (is_undelivered_to other) (dead_letter_inactive now) ds)
      (λ d e k. expired-IsEnded sid now ms d)
      (All-update_where (λ d. IsEnded sid ms d) (is_undelivered_to other) (dead_letter_inactive now)
        ds (λ d e k. dead-IsEnded sid now ms d) h)

expire_session-messages :
    (env : ReaperEnv) (sid : ℕ) (db : Db) (n : ℕ)
    → (expire_session env sid (db, n)).0.messages ≡ db.messages
unfolding expire_session close_session end_deliveries release_tombstoned audit
expire_session-messages env sid db n =
    elim (Bool-cases (count_where (is_unexpired sid) db.sessions == 0)) [
      | inl e ↦ rw e
      | inr e ↦ rw e
    ]

-- The session is still to be expired, or what is addressed to it has ended.
abbrev Handled : ℕ → Db → Type 0
Handled sid db =
    (0 < count_where (is_unexpired sid) db.sessions) ⊎ Ended sid db.messages db.deliveries

-- Two sessions are not expired by the same compare-and-set.
count-other :
    (now sid other : ℕ) (ss : List Session)
    → (sid == other) ≡ false
    → count_where (is_unexpired sid) (update_where (is_unexpired other) (make_dormant now) ss)
      ≡ count_where (is_unexpired sid) ss
unfolding count_where update_where
count-other now sid other [] h = refl
count-other now sid other (s ∷ ss) h = ground (arith, count-other now sid other ss)

module _ (env : ReaperEnv) (sid other : ℕ) where
  keeps-Handled :
      (db : Db) (n : ℕ) → Handled sid db → Handled sid (expire_session env other (db, n)).0
  unfolding expire_session close_session end_deliveries release_tombstoned audit
  keeps-Handled db n h = elim (Bool-cases (count_where (is_unexpired other) db.sessions == 0)) [
    | inl e ↦ rw e h
    | inr e ↦ elim (Bool-cases (sid == other)) [
      | inl same ↦
          rw (e, (==_iff sid other).0 same) (inr (ends env.now other db.messages db.deliveries))
      | inr differs ↦ elim h [
        | inl c ↦ rw e (inl (rw (count-other env.now sid other db.sessions differs) c))
        | inr k ↦ rw e (inr (keeps env.now sid other db.messages db.deliveries k))
      ]
    ]
  ]

  keeps-Ended :
      (db : Db) (n : ℕ)
      → Ended sid db.messages db.deliveries
      → Ended sid
          (expire_session env other (db, n)).0.messages
          (expire_session env other (db, n)).0.deliveries
  unfolding expire_session close_session end_deliveries release_tombstoned audit
  keeps-Ended db n h = elim (Bool-cases (count_where (is_unexpired other) db.sessions == 0)) [
    | inl e ↦ rw e h
    | inr e ↦ rw e (keeps env.now sid other db.messages db.deliveries h)
  ]

true-ne-false : ¬ (◌≡◌ {A = Bool} true false)
true-ne-false h = cc

zero-not-positive : {n : ℕ} → (n == 0) ≡ true → 0 < n → ⊥
zero-not-positive {n} e h = ground arith

-- The round of a session ends what is addressed to it.
expire_session-Ended :
    (env : ReaperEnv) (sid : ℕ) (db : Db) (n : ℕ)
    → Handled sid db
    → Ended sid
        (expire_session env sid (db, n)).0.messages
        (expire_session env sid (db, n)).0.deliveries
unfolding expire_session close_session end_deliveries release_tombstoned audit
expire_session-Ended env sid db n h =
    elim (Bool-cases (count_where (is_unexpired sid) db.sessions == 0)) [
      | inl e ↦ elim h [ inl c ↦ absurd (zero-not-positive e c) | inr k ↦ rw e k ]
      | inr e ↦ rw e (ends env.now sid db.messages db.deliveries)
    ]

loop-keeps-Ended :
    (env : ReaperEnv) (sid : ℕ) (xs : List Session) (s : Db × ℕ)
    → Ended sid s.0.messages s.0.deliveries
    → Ended sid (expire_sessions env xs s).0.messages (expire_sessions env xs s).0.deliveries
unfolding expire_sessions
loop-keeps-Ended env sid [] s h = h
loop-keeps-Ended env sid (x ∷ xs) s h =
    loop-keeps-Ended env sid xs (expire_session env x.session_id s)
      (keeps-Ended env sid x.session_id s.0 s.1 h)

loop-Ended :
    (env : ReaperEnv) (xs : List Session) (s : Db × ℕ)
    → All (λ (x : Session). Handled x.session_id s.0) xs
    → All
        (λ (x : Session).
          Ended x.session_id
            (expire_sessions env xs s).0.messages
            (expire_sessions env xs s).0.deliveries)
        xs
unfolding expire_sessions
loop-Ended env [] s h = tt
loop-Ended env (x ∷ xs) s h =
    let next = expire_session env x.session_id s in
    (
      loop-keeps-Ended env x.session_id xs next (expire_session-Ended env x.session_id s.0 s.1 h.0),
      loop-Ended env xs next (
          All-weaken (λ (y : Session). Handled y.session_id s.0)
            (λ (y : Session). Handled y.session_id next.0) xs
            (λ y k. keeps-Handled env y.session_id x.session_id s.0 s.1 k) h.1),
    )

idle-unexpired : (now : ℕ) (s : Session) → is_idle now s ≡ true → is_unexpired s.session_id s ≡ true
idle-unexpired now s h = rw (==_refl s.session_id) (and-left (is_unset s.expired_at) _ h)

idle-counted :
    (now : ℕ) (ss : List Session)
    → All
        (λ (s : Session). 0 < count_where (is_unexpired s.session_id) ss)
        (select_where (is_idle now) ss)
unfolding select_where count_where
idle-counted now [] = tt
idle-counted now (s ∷ ss) =
    let tail =
      All-weaken (λ (y : Session). 0 < count_where (is_unexpired y.session_id) ss)
        (λ (y : Session). 0 < count_where (is_unexpired y.session_id) (s ∷ ss))
        (select_where (is_idle now) ss) (λ y k. ground arith) (idle-counted now ss) in
    elim (Bool-cases (is_idle now s)) [
      | inl e ↦ rw e (rw (idle-unexpired now s e) (omega arith), tail)
      | inr e ↦ rw e tail
    ]

-- What is addressed to a session is not queued, not waiting for a retry and not written, and where
-- it is accepted, no reply is owed.
pub record IsSettled (sid : ℕ) (ms : List Message) (d : Delivery) : Type 0 where
  pub not_queued : d.recipient_session_id ≡ sid → d.state ≢ DeliveryState.queued
  pub not_retrying : d.recipient_session_id ≡ sid → d.state ≢ DeliveryState.retry_wait
  pub not_written : d.recipient_session_id ≡ sid → d.state ≢ DeliveryState.transport_written
  pub no_reply :
      d.recipient_session_id ≡ sid
      → d.state ≡ DeliveryState.accepted
      → (m : Message) → message_row d.message_id ms ≡ some m
      → m.requires_reply ≡ false

not-undelivered :
    (sid : ℕ) (d : Delivery) (s : DeliveryState)
    → is_undelivered s ≡ true
    → is_undelivered_to sid d ≡ false
    → d.recipient_session_id ≡ sid
    → d.state ≢ s
not-undelivered sid d s open_state h mine e =
    true-ne-false (sym (rw ((==_iff d.recipient_session_id sid).1 mine, e, open_state) refl) ∙ h)

ended-IsSettled :
    (sid : ℕ) (ms : List Message) (d : Delivery) → IsEnded sid ms d → IsSettled sid ms d
unfolding is_undelivered is_accepted
ended-IsSettled sid ms d h = record {
  not_queued = not-undelivered sid d DeliveryState.queued refl h.delivered;
  not_retrying = not-undelivered sid d DeliveryState.retry_wait refl h.delivered;
  not_written = not-undelivered sid d DeliveryState.transport_written refl h.delivered;
  no_reply = λ mine e m row. rw ((==_iff d.recipient_session_id sid).1 mine, e, row) at h.answered;
}

-- After the pass, no delivery to a session that was idle at its start is queued, waiting for a
-- retry or written, and none is accepted with its reply still owed, even where the table has
-- several rows of one session.
pub reap_expired_sessions-IsSettled :
    (env : ReaperEnv) (db : Db)
    → All
        (λ (s : Session).
          All
            (λ (d : Delivery). IsSettled s.session_id (reap_expired_sessions env db).0.messages d)
            (reap_expired_sessions env db).0.deliveries)
        (idle_sessions env db)
unfolding reap_expired_sessions idle_sessions
reap_expired_sessions-IsSettled env db =
    let after = (reap_expired_sessions env db).0 in
    let ended =
      loop-Ended env (idle_sessions env db) (db, 0)
        (All-order_by (λ (s : Session). Handled s.session_id db) (λ s. or_zero s.expires_at)
          (select_where (is_idle env.now) db.sessions)
          (All-weaken (λ (s : Session). 0 < count_where (is_unexpired s.session_id) db.sessions)
            (λ (s : Session). Handled s.session_id db) (select_where (is_idle env.now) db.sessions)
            (λ s k. inl k) (idle-counted env.now db.sessions))) in
    All-weaken (λ (s : Session). Ended s.session_id after.messages after.deliveries)
      (λ (s : Session).
        All (λ (d : Delivery). IsSettled s.session_id after.messages d) after.deliveries)
      (idle_sessions env db)
      (λ s k.
        All-weaken (λ (d : Delivery). IsEnded s.session_id after.messages d)
          (λ (d : Delivery). IsSettled s.session_id after.messages d) after.deliveries
          (λ d e. ended-IsSettled s.session_id after.messages d e) k)
      ended
