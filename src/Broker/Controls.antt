-- ===== src/Broker/Controls.antt =====
-- src/broker/controls.ts: the receiver's scheduling control and the peers that it blocks.
use text.Mathlib.Text.{◌==◌ as str_eq}
use text.Mathlib.TextEquality.{eq_iff}
use xbus.Base.{
  String, ◌&&◌, not, exists_where, select_where, ℕ, ◌≡◌, refl, Bool, true, false, List, [], ◌∷◌,
  none, some, arith, ◌==◌, if◌then◌else◌, first_where,
}
use xbus.Broker.Routing.{ReceiveControl, active, paused, do_not_disturb, manual_checkpoint}

-- A row of `session_controls`; `paused_at` and `updated_at` are left out.
pub record SessionControl : Type 0 where
  pub session_id : ℕ
  pub receiving : ℕ

-- `receiving` packs the mode.
unfoldable pub unpack : ℕ → ReceiveControl
unpack r =
    if r == 0
    then paused
    else (if r == 2 then do_not_disturb else (if r == 3 then manual_checkpoint else active))

unfoldable pub pack : ReceiveControl → ℕ
pack paused = 0
pack do_not_disturb = 2
pack manual_checkpoint = 3
pack active = 1

unfoldable pub get_control : List SessionControl → ℕ → ReceiveControl
unfolding first_where unpack
get_control cs sid = elim (first_where (λ c. c.session_id == sid) cs) [
  | none ↦ active
  | some c ↦ unpack c.receiving
]

-- `INSERT … ON CONFLICT(session_id) DO UPDATE`.
unfoldable pub set_control : List SessionControl → ℕ → ReceiveControl → List SessionControl
unfolding pack
set_control [] sid mode = record { session_id = sid; receiving = pack mode } ∷ []
set_control (c ∷ cs) sid mode =
    if c.session_id == sid
    then record { session_id = sid; receiving = pack mode } ∷ cs
    else c ∷ set_control cs sid mode

is_active : ReceiveControl → Bool
is_active active = true
is_active _ = false

unfoldable pub auto_delivery_enabled : List SessionControl → ℕ → Bool
unfolding is_active
auto_delivery_enabled cs sid = is_active (get_control cs sid)

unpack-pack : (mode : ReceiveControl) → unpack (pack mode) ≡ mode
unfolding unpack pack
unpack-pack mode = ground arith

-- A control that is set is the one read back, and no other session's control changes.
pub get_control-set_control :
    (cs : List SessionControl) (sid other : ℕ) (mode : ReceiveControl)
    → get_control (set_control cs sid mode) other
      ≡ (if sid == other then mode else get_control cs other)
unfolding get_control set_control first_where
get_control-set_control [] sid other mode = ground (arith, unpack-pack mode)
get_control-set_control (c ∷ cs) sid other mode =
    ground (arith, unpack-pack mode, get_control-set_control cs sid other mode)

-- Automatic delivery flows to a session exactly when the control last set for it is `active`.
pub auto_delivery_enabled-set_control :
    (cs : List SessionControl) (sid : ℕ) (mode : ReceiveControl)
    → (auto_delivery_enabled (set_control cs sid mode) sid ≡ true → mode ≡ active)
      × (mode ≡ active → auto_delivery_enabled (set_control cs sid mode) sid ≡ true)
unfolding auto_delivery_enabled
auto_delivery_enabled-set_control cs sid mode = (
  λ e. ground (arith, get_control-set_control cs sid sid mode),
  λ e. ground (arith, get_control-set_control cs sid sid mode),
)

-- A row of `blocked_peers`.
pub record BlockedPeer : Type 0 where
  pub id : ℕ
  pub owner_session_id : ℕ
  pub blocked_alias_ci : String

abbrev pub is_block : ℕ → String → BlockedPeer → Bool
is_block owner alias_ci b = b.owner_session_id == owner && str_eq b.blocked_alias_ci alias_ci

-- `lower` is the texts' `toLowerCase`.
unfoldable pub is_blocked : (String → String) → List BlockedPeer → ℕ → String → Bool
unfolding exists_where
is_blocked lower bs owner sender_alias_ci = exists_where (is_block owner (lower sender_alias_ci)) bs

-- `INSERT OR IGNORE` on the key (owner, alias).
unfoldable pub block_peer : (String → String) → List BlockedPeer → ℕ → ℕ → String → List BlockedPeer
unfolding exists_where
block_peer lower bs id owner alias_ci =
    if exists_where (is_block owner (lower alias_ci)) bs
    then bs
    else record { id = id; owner_session_id = owner; blocked_alias_ci = lower alias_ci } ∷ bs

unfoldable pub unblock_peer : (String → String) → List BlockedPeer → ℕ → String → List BlockedPeer
unfolding select_where
unblock_peer lower bs owner alias_ci =
    select_where (λ b. not (is_block owner (lower alias_ci) b)) bs

block_same :
    (bs : List BlockedPeer) (owner other : ℕ) (x y : String)
    → owner ≡ other
    → x ≡ y
    → exists_where (is_block owner x) bs ≡ exists_where (is_block other y) bs
block_same bs owner other x y p q = rw (p, q) refl

-- After a block the peer is blocked; whether another is blocked does not change.
pub is_blocked-block_peer :
    (lower : String → String) (bs : List BlockedPeer) (id owner other : ℕ) (a b : String)
    → is_blocked lower (block_peer lower bs id owner a) other b
      ≡ (if owner == other && str_eq (lower a) (lower b) then true else is_blocked lower bs other b)
unfolding is_blocked block_peer exists_where
is_blocked-block_peer lower bs id owner other a b =
    ground (arith, block_same bs owner other (lower a) (lower b), eq_iff (lower a) (lower b))

-- After an unblock the peer is not blocked; whether another is blocked does not change.
pub is_blocked-unblock_peer :
    (lower : String → String) (bs : List BlockedPeer) (owner other : ℕ) (a b : String)
    → is_blocked lower (unblock_peer lower bs owner a) other b ≡ (
        if owner == other && str_eq (lower a) (lower b) then false else is_blocked lower bs other b)
unfolding is_blocked unblock_peer exists_where select_where
is_blocked-unblock_peer lower [] owner other a b = ground arith
is_blocked-unblock_peer lower (c ∷ cs) owner other a b = ground (
  arith,
  is_blocked-unblock_peer lower cs owner other a b,
  eq_iff (lower a) (lower b),
  eq_iff c.blocked_alias_ci (lower a),
  eq_iff c.blocked_alias_ci (lower b),
)
