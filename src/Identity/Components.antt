-- ===== src/Identity/Components.antt =====
-- src/identity/components.ts: component roles and the capability matrix.
use xbus.Base.{◌≡◌, ◌↔◌, inl, inr, Bool, true, false, arith, if◌then◌else◌, Bool-cases}
use xbus.Protocol.Errors.{Result, ok, err, forbidden_role}

pub data ComponentRole : Type 0 where
  mcp hook transport cli admin : ComponentRole

pub data Operation : Type 0 where
  register send pull_hook_checkpoint mark_injected ack reply list_inbox : Operation
  list_sessions get_metrics dead_letter change_alias shutdown : Operation

-- `MATRIX[role]?.has(op) ?? false`.
unfoldable pub is_allowed : ComponentRole → Operation → Bool
is_allowed mcp register = true
is_allowed mcp send = true
is_allowed mcp ack = true
is_allowed mcp reply = true
is_allowed mcp list_inbox = true
is_allowed mcp list_sessions = true
is_allowed mcp change_alias = true
is_allowed hook register = true
is_allowed hook pull_hook_checkpoint = true
is_allowed hook mark_injected = true
is_allowed hook list_inbox = true
is_allowed transport register = true
is_allowed transport mark_injected = true
is_allowed cli register = true
is_allowed cli send = true
is_allowed cli list_sessions = true
is_allowed cli list_inbox = true
is_allowed admin register = true
is_allowed admin send = true
is_allowed admin list_sessions = true
is_allowed admin list_inbox = true
is_allowed admin get_metrics = true
is_allowed admin dead_letter = true
is_allowed admin change_alias = true
is_allowed admin shutdown = true
is_allowed _ _ = false

unfoldable pub assert_allowed : ComponentRole → Operation → Result (Unit {0})
unfolding is_allowed
assert_allowed r op = if is_allowed r op then ok tt else err forbidden_role

err-ne-ok : {u : Unit {0}} → ¬ (◌≡◌ {A = Result (Unit {0})} (err forbidden_role) (ok u))
err-ne-ok h = cc

-- Acknowledging and replying are the MCP component's alone, pulling a checkpoint is the hook's
-- alone, and shutting the broker down or handling dead letters is the admin's alone.
assert_allowed_owner :
    (r : ComponentRole)
    → ((assert_allowed r ack ≡ ok tt) ↔ (r ≡ mcp))
      × ((assert_allowed r reply ≡ ok tt) ↔ (r ≡ mcp))
      × ((assert_allowed r pull_hook_checkpoint ≡ ok tt) ↔ (r ≡ hook))
      × ((assert_allowed r shutdown ≡ ok tt) ↔ (r ≡ admin))
      × ((assert_allowed r dead_letter ≡ ok tt) ↔ (r ≡ admin))
unfolding assert_allowed
assert_allowed_owner r = (
  (λ h. ground arith, λ h. ground arith),
  (λ h. ground arith, λ h. ground arith),
  (λ h. ground arith, λ h. ground arith),
  (λ h. ground arith, λ h. ground arith),
  (λ h. ground arith, λ h. ground arith),
)

pub assert_allowed-ok :
    (r : ComponentRole) (op : Operation) (u : Unit {0})
    → assert_allowed r op ≡ ok u
    → is_allowed r op ≡ true
unfolding assert_allowed
assert_allowed-ok r op u h = elim (Bool-cases (is_allowed r op)) [
  | inl e ↦ e
  | inr e ↦ absurd (err-ne-ok (rw (e, assert_allowed) at h))
]

pub assert_allowed-true :
    (r : ComponentRole) (op : Operation) → is_allowed r op ≡ true → assert_allowed r op ≡ ok tt
unfolding assert_allowed
assert_allowed-true r op e = rw (e, assert_allowed)
