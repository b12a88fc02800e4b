-- ===== src/Broker/Send/Added.antt =====
-- src/broker/store.ts: what a send has checked and added, said without its own functions.
use xbus.Base.{
  ℕ, ◌≡◌, refl, arith, Bool, List, Option, String, All, exists_where, is_some, inl, inr, true,
  false, [], ◌∷◌, none, some, Bool-cases,
}
use xbus.Protocol.States.{DeliveryState}
use text.Mathlib.TextEquality.{eq_iff}
use xbus.Broker.Controls.{BlockedPeer, is_block, is_blocked}
use xbus.Broker.Recipients.{Names, Target, alias_for_session}
use xbus.Broker.Db.{Db, Message, Delivery, Session, SessionAuthority, Env}
use xbus.Broker.Delivery.Sessions.{session_row}
use xbus.Broker.Delivery.Reply.{has_expired, queued_row, next_sequence_of}
use xbus.Broker.Send.{SendInput, message_of, is_blocked_by}

-- The recipient's session, where there is one, has not expired.
abbrev pub IsLive : Option Session → Type 0
IsLive none = Unit {0}
IsLive (some s) = s.expired_at ≡ none

-- No block of the recipient's names the sender's alias.
abbrev pub IsFree : Names → SessionAuthority → Target → Db → Type 0
IsFree n auth target db =
    All
      (λ (b : BlockedPeer). ¬ (
        (b.owner_session_id ≡ target.session_id)
        × (b.blocked_alias_ci ≡ n.lower (n.lower (alias_for_session n auth.session_id db)))))
      db.blocked_peers

-- A new message from the caller to the target, with the input's text, needs and key, under the
-- recipient's next number.
pub record IsNewMessage (env : Env) (auth : SessionAuthority) (input : SendInput) (target : Target)
    (db : Db) (m : Message) : Type 0 where
  pub new_id : m.message_id ≡ db.next_id
  pub from_caller : m.sender_session_id ≡ auth.session_id
  pub to_target : m.recipient_session_id ≡ target.session_id
  pub under_alias : m.recipient_alias ≡ target.alias
  pub number : m.recipient_sequence ≡ next_sequence_of target.session_id db.recipient_sequences
  pub key : m.idempotency_key ≡ input.idempotency_key
  pub text : m.body_text ≡ input.text
  pub acks : m.requires_ack ≡ input.requires_ack
  pub replies : m.requires_reply ≡ input.requires_reply
  pub sent_at : m.created_at ≡ env.now

-- A delivery of the message to its recipient that waits, is due at once, and was never tried.
pub record IsNewDelivery (m : Message) (d : Delivery) : Type 0 where
  pub of_message : d.message_id ≡ m.message_id
  pub to_recipient : d.recipient_session_id ≡ m.recipient_session_id
  pub is_queued : d.state ≡ DeliveryState.queued
  pub due : d.next_attempt_at ≡ none
  pub untried : (d.attempt ≡ 0) × (d.attempt_ack_timeout ≡ 0)

abbrev expired_of : Option Session → Bool
expired_of none = false
expired_of (some s) = is_some s.expired_at

expired_of-IsLive : (o : Option Session) → expired_of o ≡ false → IsLive o
expired_of-IsLive none h = tt
expired_of-IsLive (some s) h = not_some s.expired_at h
  where
    not_some : (o : Option ℕ) → is_some o ≡ false → o ≡ none
    not_some none h = refl
    not_some (some t) h = cc

some_ne : ¬ (true ≡ false)
some_ne h = cc

not_block :
    (owner : ℕ) (a : String) (b : BlockedPeer)
    → is_block owner a b ≡ false
    → ¬ ((b.owner_session_id ≡ owner) × (b.blocked_alias_ci ≡ a))
not_block owner a b h (p, q) = ground (arith, (eq_iff b.blocked_alias_ci a).1 q)

is_block-free :
    (owner : ℕ) (a : String) (bs : List BlockedPeer)
    → exists_where (is_block owner a) bs ≡ false
    → All (λ (b : BlockedPeer). ¬ ((b.owner_session_id ≡ owner) × (b.blocked_alias_ci ≡ a))) bs
unfolding exists_where
is_block-free owner a [] h = tt
is_block-free owner a (b ∷ bs) h = elim (Bool-cases (is_block owner a b)) [
  | inl hit ↦ absurd (some_ne (rw hit at h))
  | inr miss ↦ (not_block owner a b miss, is_block-free owner a bs (rw miss at h))
]

pub has_expired-IsLive :
    (sid : ℕ) (db : Db) → has_expired sid db ≡ false → IsLive (session_row sid db)
unfolding has_expired
has_expired-IsLive sid db h = expired_of-IsLive (session_row sid db) h

pub is_blocked_by-IsFree :
    (n : Names) (auth : SessionAuthority) (target : Target) (db : Db)
    → is_blocked_by n auth target db ≡ false
    → IsFree n auth target db
unfolding is_blocked_by is_blocked
is_blocked_by-IsFree n auth target db h =
    is_block-free target.session_id (n.lower (n.lower (alias_for_session n auth.session_id db)))
      db.blocked_peers h

pub message_of-IsNewMessage :
    (n : Names) (env : Env) (auth : SessionAuthority) (input : SendInput) (target : Target)
    (db : Db)
    → IsNewMessage env auth input target db (message_of n env auth input target db)
unfolding message_of
message_of-IsNewMessage n env auth input target db = record {
  new_id = refl;
  from_caller = refl;
  to_target = refl;
  under_alias = refl;
  number = refl;
  key = refl;
  text = refl;
  acks = refl;
  replies = refl;
  sent_at = refl;
}

pub queued_row-IsNewDelivery :
    (n : Names) (env : Env) (auth : SessionAuthority) (input : SendInput) (target : Target)
    (db : Db) (id : ℕ)
    → let m = message_of n env auth input target db in
      IsNewDelivery m (queued_row env id m.message_id target.session_id)
unfolding message_of queued_row
queued_row-IsNewDelivery n env auth input target db id = record {
  of_message = refl;
  to_recipient = refl;
  is_queued = refl;
  due = refl;
  untried = (refl, refl);
}
