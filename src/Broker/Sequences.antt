-- ===== src/Broker/Sequences.antt =====
-- The numbers that messages get per recipient, the key of the UNIQUE index `ux_recipseq` of
-- src/database/migrations.ts: an invariant of the tables, and how operations keep it.
use xbus.Base.{
  ℕ, suc, ◌≡◌, sym, ◌<◌, Bool, true, false, List, [], ◌∷◌, ◌++◌, arith, ◌==◌, if◌then◌else◌, All,
  All-weaken, All-append,
}
use xbus.Protocol.Errors.{Result, ok, err}
use xbus.Broker.Db.{
  Db, Message, RecipientSequence, M, ◌>>◌, continue, audit, SessionAuthority, transaction,
  rolled_back,
}
use xbus.Identity.Components.{Operation, assert_allowed}
use xbus.Broker.Delivery.Sessions.{assert_current_epoch, authorized}
use xbus.Broker.Delivery.Reply.{next_sequence_of, advance_sequence}

-- A recipient's cursor after it or another's has moved on.
next_sequence_of-advance_sequence :
    (sid other : ℕ) (rs : List RecipientSequence)
    → next_sequence_of other (advance_sequence sid rs)
      ≡ (if other == sid then suc (next_sequence_of sid rs) else next_sequence_of other rs)
unfolding next_sequence_of advance_sequence
next_sequence_of-advance_sequence sid other [] = ground arith
next_sequence_of-advance_sequence sid other (r ∷ rs) =
    ground (arith, next_sequence_of-advance_sequence sid other rs)

-- Below the recipient's cursor.
abbrev pub IsBelowCursor : List RecipientSequence → Message → Type 0
IsBelowCursor rs m = m.recipient_sequence < next_sequence_of m.recipient_session_id rs

abbrev pub Collide : Message → Message → Type 0
Collide m x =
    (x.recipient_session_id ≡ m.recipient_session_id)
    × (x.recipient_sequence ≡ m.recipient_sequence)

-- No two messages to one recipient have one number.
abbrev pub AreDistinct : List Message → Type 0
AreDistinct [] = Unit {0}
AreDistinct (m ∷ ms) = All (λ x. ¬ Collide m x) ms × AreDistinct ms

abbrev pub IsSequenced : List RecipientSequence → List Message → Type 0
IsSequenced rs ms = All (IsBelowCursor rs) ms × AreDistinct ms

advance_sequence-IsBelowCursor :
    (rs : List RecipientSequence) (sid : ℕ) (m : Message)
    → IsBelowCursor rs m
    → IsBelowCursor (advance_sequence sid rs) m
advance_sequence-IsBelowCursor rs sid m h =
    ground (arith, next_sequence_of-advance_sequence sid m.recipient_session_id rs)

AreDistinct-append :
    (rs : List RecipientSequence) (ms : List Message) (m : Message)
    → m.recipient_sequence ≡ next_sequence_of m.recipient_session_id rs
    → All (IsBelowCursor rs) ms
    → AreDistinct ms
    → AreDistinct (ms ++ (m ∷ []))
AreDistinct-append rs [] m e h d = (tt, tt)
AreDistinct-append rs (x ∷ xs) m e h d = (
  All-append (λ y. ¬ Collide x y) xs (m ∷ []) d.0
      (
        λ (same, number).
            let below : x.recipient_sequence < next_sequence_of m.recipient_session_id rs =
              rw (sym same) at h.0 in
            omega (arith, below, e, number),
        tt,
      ),
  AreDistinct-append rs xs m e h.1 d.1,
)

pub IsSequenced-append :
    (rs : List RecipientSequence) (ms : List Message) (m : Message)
    → m.recipient_sequence ≡ next_sequence_of m.recipient_session_id rs
    → IsSequenced rs ms
    → IsSequenced (advance_sequence m.recipient_session_id rs) (ms ++ (m ∷ []))
IsSequenced-append rs ms m e (below, distinct) =
    let moved = advance_sequence m.recipient_session_id rs in
    let rest =
      All-weaken (IsBelowCursor rs) (IsBelowCursor moved) ms
        (advance_sequence-IsBelowCursor rs m.recipient_session_id) below in
    let last : IsBelowCursor moved m = ground (
      arith,
      e,
      next_sequence_of-advance_sequence m.recipient_session_id m.recipient_session_id rs,
    ) in
    (
      All-append (IsBelowCursor moved) ms (m ∷ []) rest (last, tt),
      AreDistinct-append rs ms m e below distinct,
    )

-- How an operation keeps the numbering.
abbrev pub KeepsSequence : Db → Db → Type 0
KeepsSequence before after =
    IsSequenced before.recipient_sequences before.messages
    → IsSequenced after.recipient_sequences after.messages

module _ {A : Type 0} where
  pub KeepsSequence-branch :
      (a : Db) (b : Bool) (x y : Db × A)
      → KeepsSequence a x.0
      → KeepsSequence a y.0
      → KeepsSequence a (if b then x else y).0
  KeepsSequence-branch a true x y p q = p
  KeepsSequence-branch a false x y p q = q

rolled_back-KeepsSequence :
    {A : Type 0} (before after : Db) (r : Result A)
    → KeepsSequence before after
    → KeepsSequence before (rolled_back before after r).0
rolled_back-KeepsSequence before after (ok a) h = h
rolled_back-KeepsSequence before after (err e) h = λ s. s

pub transaction-KeepsSequence :
    {A : Type 0} (m : M A) (db : Db)
    → KeepsSequence db (m db).0
    → KeepsSequence db (transaction m db).0
transaction-KeepsSequence m db h = rolled_back-KeepsSequence db (m db).0 (m db).1 h

continue-KeepsSequence :
    {A B : Type 0} (before db : Db) (r : Result A) (f : A → M B)
    → KeepsSequence before db
    → ((a : A) → KeepsSequence db (f a db).0)
    → KeepsSequence before (continue db r f).0
continue-KeepsSequence before db (ok a) f h k = λ s. k a (h s)
continue-KeepsSequence before db (err e) f h k = h

epoch-rows :
    (auth : SessionAuthority) (db : Db)
    → ((assert_current_epoch auth db).0.messages ≡ db.messages)
      × ((assert_current_epoch auth db).0.recipient_sequences ≡ db.recipient_sequences)
unfolding assert_current_epoch audit
epoch-rows auth db = (ground arith, ground arith)

epoch-KeepsSequence :
    (auth : SessionAuthority) (db : Db) → KeepsSequence db (assert_current_epoch auth db).0
epoch-KeepsSequence auth db h = let (ms, seqs) = epoch-rows auth db in rw (ms, seqs) h

pub authorized-KeepsSequence :
    {A : Type 0} (auth : SessionAuthority) (op : Operation) (k : M A) (db : Db)
    → ((db' : Db) → KeepsSequence db' (k db').0)
    → KeepsSequence db (authorized auth op k db).0
unfolding authorized
authorized-KeepsSequence auth op k db h =
    let checked = assert_current_epoch auth db in
    continue-KeepsSequence db db (assert_allowed auth.role op) (λ _. assert_current_epoch auth >> k)
      (λ s. s)
      (λ _.
        continue-KeepsSequence db checked.0 checked.1 (λ _. k) (epoch-KeepsSequence auth db)
          (λ _. h checked.0))
