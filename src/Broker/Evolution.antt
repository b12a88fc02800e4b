-- ===== src/Broker/Evolution.antt =====
-- How an operation may change the `deliveries` table: every row stays, under its ids, its state
-- makes the moves of the operation's caller, and a row in a terminal state is not changed at all.
-- New rows may be added.
use xbus.Base.{
  ◌≡◌, refl, ◌∙◌, inl, inr, Bool, true, false, List, [], ◌∷◌, ◌++◌, update_where, if◌then◌else◌,
  Bool-cases,
}
use xbus.Protocol.States.{DeliveryState, is_terminal}
use xbus.Protocol.Errors.{Result, ok, err}
use xbus.Broker.Db.{Db, Delivery, M, ◌>>◌, transaction, rolled_back, continue}

-- Who changes a delivery: a pull or a mark that hands messages over, an acknowledgement, a reply, a
-- cancel, the sweep, an operation that changes none, or any of these.
pub data Caller : Type 0 where
  delivering acknowledging replying cancelling sweeping bystanding anyone : Caller

-- The changes of state that a caller makes, each in one update of the row. `EDGES` of
-- src/protocol/states.ts has no edge for `hand_over`, `hand_over_again`, `bury_queued` and
-- `bury_written`, and has the one of `answer` only where the message requires no acknowledgement.
pub data Move : Caller → DeliveryState → DeliveryState → Type 0 where
  hand_over : Move delivering DeliveryState.queued DeliveryState.transport_written
  hand_over_again : Move delivering DeliveryState.retry_wait DeliveryState.transport_written
  need_nothing : Move delivering DeliveryState.transport_written DeliveryState.completed
  accept_it : Move acknowledging DeliveryState.transport_written DeliveryState.accepted
  reject_it : Move acknowledging DeliveryState.transport_written DeliveryState.rejected
  answer : Move replying DeliveryState.transport_written DeliveryState.completed
  answer_accepted : Move replying DeliveryState.accepted DeliveryState.completed
  cancel_queued : Move cancelling DeliveryState.queued DeliveryState.cancelled
  cancel_retry : Move cancelling DeliveryState.retry_wait DeliveryState.cancelled
  time_out : Move sweeping DeliveryState.transport_written DeliveryState.retry_wait
  bury_written : Move sweeping DeliveryState.transport_written DeliveryState.dead_letter
  bury_queued : Move sweeping DeliveryState.queued DeliveryState.dead_letter
  bury_retry : Move sweeping DeliveryState.retry_wait DeliveryState.dead_letter
  expire_queued : Move sweeping DeliveryState.queued DeliveryState.expired
  expire_retry : Move sweeping DeliveryState.retry_wait DeliveryState.expired
  expire_accepted : Move sweeping DeliveryState.accepted DeliveryState.expired
  by_one : {op : Caller} {s t : DeliveryState} → Move op s t → Move anyone s t

-- A chain of changes by one caller.
pub data Moves (op : Caller) : DeliveryState → DeliveryState → Type 0 where
  here : {s : DeliveryState} → Moves op s s
  next : {s t u : DeliveryState} → Move op s t → Moves op t u → Moves op s u

pub one_move : {op : Caller} {s t : DeliveryState} → Move op s t → Moves op s t
one_move m = next m here

Moves-trans : {op : Caller} {s t u : DeliveryState} → Moves op s t → Moves op t u → Moves op s u
Moves-trans here q = q
Moves-trans (next m p) q = next m (Moves-trans p q)

pub record Later (op : Caller) (d d' : Delivery) : Type 0 where
  pub same_delivery : d'.delivery_id ≡ d.delivery_id
  pub same_message : d'.message_id ≡ d.message_id
  pub same_recipient : d'.recipient_session_id ≡ d.recipient_session_id
  pub path : Moves op d.state d'.state
  pub absorbed : is_terminal d.state ≡ true → d' ≡ d

pub Later-refl : {op : Caller} (d : Delivery) → Later op d d
Later-refl d = record {
  same_delivery = refl;
  same_message = refl;
  same_recipient = refl;
  path = here;
  absorbed = λ h. refl;
}

Later-trans : {op : Caller} {d e f : Delivery} → Later op d e → Later op e f → Later op d f
Later-trans {d} {e} {f} p q = record {
  same_delivery = q.same_delivery ∙ p.same_delivery;
  same_message = q.same_message ∙ p.same_message;
  same_recipient = q.same_recipient ∙ p.same_recipient;
  path = Moves-trans p.path q.path;
  absorbed = λ h. let same = p.absorbed h in q.absorbed (rw same h) ∙ same;
}

-- A change of a row that is not in a terminal state.
pub moved :
    {op : Caller} (d d' : Delivery)
    → d'.delivery_id ≡ d.delivery_id
    → d'.message_id ≡ d.message_id
    → d'.recipient_session_id ≡ d.recipient_session_id
    → Moves op d.state d'.state
    → is_terminal d.state ≡ false
    → Later op d d'
moved d d' a b c p open_state = record {
  same_delivery = a;
  same_message = b;
  same_recipient = c;
  path = p;
  absorbed = λ h. cc;
}

-- Every row stays in its place, changed by one caller at most; rows may be added behind them.
pub data Evolves (op : Caller) : List Delivery → List Delivery → Type 0 where
  added : {ys : List Delivery} → Evolves op [] ys
  kept :
      {x y : Delivery} {xs ys : List Delivery}
      → Later op x y
      → Evolves op xs ys
      → Evolves op (x ∷ xs) (y ∷ ys)

pub Evolves-refl : {op : Caller} (ds : List Delivery) → Evolves op ds ds
Evolves-refl [] = added
Evolves-refl (d ∷ ds) = kept (Later-refl d) (Evolves-refl ds)

pub Evolves-trans :
    {op : Caller} {xs ys zs : List Delivery}
    → Evolves op xs ys
    → Evolves op ys zs
    → Evolves op xs zs
Evolves-trans added q = added
Evolves-trans (kept p ps) (kept q qs) = kept (Later-trans p q) (Evolves-trans ps qs)

pub Evolves-append : {op : Caller} (ds new : List Delivery) → Evolves op ds (ds ++ new)
Evolves-append [] new = added
Evolves-append (d ∷ ds) new = kept (Later-refl d) (Evolves-append ds new)

pub Evolves-update_where :
    {op : Caller} (p : Delivery → Bool) (f : Delivery → Delivery) (ds : List Delivery)
    → ((d : Delivery) → p d ≡ true → Later op d (f d))
    → Evolves op ds (update_where p f ds)
unfolding update_where
Evolves-update_where p f [] h = added
Evolves-update_where p f (d ∷ ds) h = elim (Bool-cases (p d)) [
  | inl e ↦ rw e (kept (h d e) (Evolves-update_where p f ds h))
  | inr e ↦ rw e (kept (Later-refl d) (Evolves-update_where p f ds h))
]

Moves-by_one : {op : Caller} {s t : DeliveryState} → Moves op s t → Moves anyone s t
Moves-by_one here = here
Moves-by_one (next m p) = next (by_one m) (Moves-by_one p)

Later-by_one : {op : Caller} {d e : Delivery} → Later op d e → Later anyone d e
Later-by_one p = record {
  same_delivery = p.same_delivery;
  same_message = p.same_message;
  same_recipient = p.same_recipient;
  path = Moves-by_one p.path;
  absorbed = p.absorbed;
}

pub Evolves-by_one : {op : Caller} {xs ys : List Delivery} → Evolves op xs ys → Evolves anyone xs ys
Evolves-by_one added = added
Evolves-by_one (kept p ps) = kept (Later-by_one p) (Evolves-by_one ps)

-- How an operation changes the tables, as far as deliveries go.
abbrev pub Advances : Caller → Db → Db → Type 0
Advances op before after = Evolves op before.deliveries after.deliveries

pub Advances-trans :
    {op : Caller} (a b c : Db) → Advances op a b → Advances op b c → Advances op a c
Advances-trans a b c p q = Evolves-trans p q

pub Advances-same : {op : Caller} (a b : Db) → b.deliveries ≡ a.deliveries → Advances op a b
Advances-same a b e = rw e (Evolves-refl a.deliveries)

pub Advances-if :
    {op : Caller} (a : Db) (b : Bool) (x y : Db)
    → Advances op a x
    → Advances op a y
    → Advances op a (if b then x else y)
Advances-if a true x y p q = p
Advances-if a false x y p q = q

module _ {A : Type 0} where
  pub Advances-branch :
      {op : Caller} (a : Db) (b : Bool) (x y : Db × A)
      → Advances op a x.0
      → Advances op a y.0
      → Advances op a (if b then x else y).0
  Advances-branch a true x y p q = p
  Advances-branch a false x y p q = q

pub Advances-update :
    {op : Caller} (db : Db) (p : Delivery → Bool) (f : Delivery → Delivery)
    → ((d : Delivery) → p d ≡ true → Later op d (f d))
    → Advances op db (record db { deliveries = update_where p f db.deliveries })
Advances-update db p f h = Evolves-update_where p f db.deliveries h

-- A throw out of a transaction leaves the tables as they were.
rolled_back-Advances :
    {op : Caller} {A : Type 0} (before after : Db) (r : Result A)
    → Advances op before after
    → Advances op before (rolled_back before after r).0
rolled_back-Advances before after (ok a) h = h
rolled_back-Advances before after (err e) h = Evolves-refl before.deliveries

pub transaction-Advances :
    {op : Caller} {A : Type 0} (m : M A) (db : Db)
    → Advances op db (m db).0
    → Advances op db (transaction m db).0
transaction-Advances m db h = rolled_back-Advances db (m db).0 (m db).1 h

continue-Advances :
    {op : Caller} {A B : Type 0} (before db : Db) (r : Result A) (f : A → M B)
    → Advances op before db
    → ((a : A) → Advances op db (f a db).0)
    → Advances op before (continue db r f).0
continue-Advances before db (ok a) f h k = Advances-trans before db (f a db).0 h (k a)
continue-Advances before db (err e) f h k = h

pub >>-Advances :
    {op : Caller} {B : Type 0} (m : M (Unit {0})) (k : M B) (db : Db)
    → Advances op db (m db).0
    → ((db' : Db) → Advances op db' (k db').0)
    → Advances op db (◌>>◌ m k db).0
>>-Advances m k db h g = continue-Advances db (m db).0 (m db).1 (λ _. k) h (λ _. g (m db).0)
