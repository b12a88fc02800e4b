-- ===== src/Broker/Ledger/Order.antt =====
-- src/broker/ledger.ts: the order of an object's fields, which the canonical text forgets.
use xbus.Base.{
  ◌≡◌, refl, ◌≢◌, ◌⊎◌, Bool, true, Option, none, some, String, List, ◌∷◌, [], arith, ap, ◌∙◌,
}
use xbus.Broker.Ledger.{
  Runtime, JsonValue, Fields, field, object, plain, canonicalize, canonical_fields, bracketed,
  add_part, parts_texts, Part, insert_part,
}

-- The order that `Array.sort` puts keys into: a total order.
pub record IsTotalOrder (le : String → String → Bool) : Type 0 where
  pub total : (a b : String) → (le a b ≡ true) ⊎ (le b a ≡ true)
  pub antisymmetric : (a b : String) → le a b ≡ true → le b a ≡ true → a ≡ b
  pub transitive : (a b c : String) → le a b ≡ true → le b c ≡ true → le a c ≡ true

-- The same fields in another order, the keys all different.
pub data Reordered : Fields → Fields → Type 0 where
  same : (fs : Fields) → Reordered fs fs
  behind :
      (k : String) (v : JsonValue) (fs gs : Fields)
      → Reordered fs gs
      → Reordered (field k v fs) (field k v gs)
  swapped :
      (k j : String) (v w : JsonValue) (fs : Fields)
      → k ≢ j
      → Reordered (field k v (field j w fs)) (field j w (field k v fs))
  then : (fs gs hs : Fields) → Reordered fs gs → Reordered gs hs → Reordered fs hs

insert_part_comm :
    (le : String → String → Bool) (p q : Part) (ps : List Part)
    → IsTotalOrder le
    → p.key ≢ q.key
    → insert_part le p (insert_part le q ps) ≡ insert_part le q (insert_part le p ps)
unfolding insert_part
insert_part_comm le p q [] o d = ground (arith, o.total p.key q.key, o.antisymmetric p.key q.key, d)
insert_part_comm le p q (r ∷ rs) o d = ground (
  arith,
  o.total p.key q.key,
  o.antisymmetric p.key q.key,
  d,
  insert_part_comm le p q rs o d,
  o.transitive p.key q.key r.key,
  o.transitive q.key p.key r.key,
)

add_part_comm :
    (js : Runtime) (k j : String) (a b : Option String) (ps : Option (List Part))
    → IsTotalOrder js.key_le
    → k ≢ j
    → add_part js k a (add_part js j b ps) ≡ add_part js j b (add_part js k a ps)
add_part_comm js k j none none ps o d = refl
add_part_comm js k j none (some b) none o d = refl
add_part_comm js k j none (some b) (some ps) o d = refl
add_part_comm js k j (some a) none ps o d = refl
add_part_comm js k j (some a) (some b) none o d = refl
add_part_comm js k j (some a) (some b) (some ps) o d = ap some (
    insert_part_comm js.key_le (record { key = k; text = a }) (record { key = j; text = b }) ps o d)

canonical_fields-Reordered :
    (js : Runtime) (fs gs : Fields)
    → IsTotalOrder js.key_le
    → Reordered fs gs
    → canonical_fields js fs ≡ canonical_fields js gs
unfolding canonicalize
canonical_fields-Reordered js _ _ o (same fs) = refl
canonical_fields-Reordered js _ _ o (behind k v fs gs r) =
    ap (add_part js k (canonicalize js v)) (canonical_fields-Reordered js fs gs o r)
canonical_fields-Reordered js _ _ o (swapped k j v w fs d) =
    add_part_comm js k j (canonicalize js v) (canonicalize js w) (canonical_fields js fs) o d
canonical_fields-Reordered js _ _ o (then fs gs hs r s) =
    canonical_fields-Reordered js fs gs o r ∙ canonical_fields-Reordered js gs hs o s

-- The canonical text of an object does not depend on the order of its fields, where `Array.sort`
-- puts keys into a total order.
pub canonicalize-Reordered :
    (js : Runtime) (fs gs : Fields)
    → IsTotalOrder js.key_le
    → Reordered fs gs
    → canonicalize js (object plain fs) ≡ canonicalize js (object plain gs)
unfolding canonicalize
canonicalize-Reordered js fs gs o r =
    ap (λ ps. bracketed "{" "}" (parts_texts js ps)) (canonical_fields-Reordered js fs gs o r)
