-- ===== src/Broker/Ledger/Canonical.antt =====
-- src/broker/ledger.ts: which values have a canonical text, and what it does not depend on.
use xbus.Base.{◌≡◌, refl, ◌↔◌, true, false, Option, none, some, String, List, ◌∷◌, none-ne-some}
use xbus.Broker.Ledger.{
  Runtime, JsonValue, Elements, Fields, null, non_finite, unsupported, boolean, number, string,
  array, object, no_elements, hole, element, no_fields, field, plain, non_plain, custom_to_json,
  canonicalize, canonical_elements, canonical_fields, bracketed, add_part, add_element, parts_texts,
  Part, insert_part,
}

-- What JSON can say: no undefined, function, symbol or bigint, no number that is not finite, no hole
-- in an array and no object but a plain one without `toJSON`, at any depth.
abbrev mutual
  pub IsEncodable : JsonValue → Type 0
  IsEncodable null = Unit {0}
  IsEncodable non_finite = ⊥
  IsEncodable unsupported = ⊥
  IsEncodable (boolean b) = Unit {0}
  IsEncodable (number t) = Unit {0}
  IsEncodable (string s) = Unit {0}
  IsEncodable (array es) = AreEncodable es
  IsEncodable (object plain fs) = HaveEncodable fs
  IsEncodable (object non_plain fs) = ⊥
  IsEncodable (object custom_to_json fs) = ⊥

  pub AreEncodable : Elements → Type 0
  AreEncodable no_elements = Unit {0}
  AreEncodable (hole es) = ⊥
  AreEncodable (element v es) = IsEncodable v × AreEncodable es

  pub HaveEncodable : Fields → Type 0
  HaveEncodable no_fields = Unit {0}
  HaveEncodable (field k v fs) = IsEncodable v × HaveEncodable fs

bracketed-some :
    (l r : String) (o : Option (List String)) (ts : List String)
    → o ≡ some ts
    → (t : String) × (bracketed l r o ≡ some t)
bracketed-some l r none ts e = absurd (none-ne-some e)
bracketed-some l r (some us) ts e = (_, refl)

parts_texts-some :
    (js : Runtime) (o : Option (List Part)) (ps : List Part)
    → o ≡ some ps
    → (ts : List String) × (parts_texts js o ≡ some ts)
parts_texts-some js none ps e = absurd (none-ne-some e)
parts_texts-some js (some qs) ps e = (_, refl)

mutual
  unfolding canonicalize

  encodable_some :
      (js : Runtime) (v : JsonValue) → IsEncodable v → (t : String) × (canonicalize js v ≡ some t)
  encodable_some js null h = (_, refl)
  encodable_some js non_finite h = absurd h
  encodable_some js unsupported h = absurd h
  encodable_some js (boolean true) h = (_, refl)
  encodable_some js (boolean false) h = (_, refl)
  encodable_some js (number t) h = (_, refl)
  encodable_some js (string s) h = (_, refl)
  encodable_some js (array es) h =
      let (ts, e) = elements_some js es h in bracketed-some "[" "]" (canonical_elements js es) ts e
  encodable_some js (object plain fs) h =
      let (ps, e) = fields_some js fs h in
      let (ts, e') = parts_texts-some js (canonical_fields js fs) ps e in
      bracketed-some "{" "}" (parts_texts js (canonical_fields js fs)) ts e'
  encodable_some js (object non_plain fs) h = absurd h
  encodable_some js (object custom_to_json fs) h = absurd h

  elements_some :
      (js : Runtime) (es : Elements)
      → AreEncodable es
      → (ts : List String) × (canonical_elements js es ≡ some ts)
  elements_some js no_elements h = (_, refl)
  elements_some js (hole es) h = absurd h
  elements_some js (element v es) h =
      let (t, e) = encodable_some js v h.0 in
      let (ts, e') = elements_some js es h.1 in (t ∷ ts, rw (e, e') refl)

  fields_some :
      (js : Runtime) (fs : Fields)
      → HaveEncodable fs
      → (ps : List Part) × (canonical_fields js fs ≡ some ps)
  fields_some js no_fields h = (_, refl)
  fields_some js (field k v fs) h =
      let (t, e) = encodable_some js v h.0 in
      let (ps, e') = fields_some js fs h.1 in
      (insert_part js.key_le (record { key = k; text = t }) ps, rw (e, e') refl)

bracketed-source :
    (l r : String) (o : Option (List String)) (t : String)
    → bracketed l r o ≡ some t
    → (ts : List String) × (o ≡ some ts)
bracketed-source l r none t h = absurd (none-ne-some h)
bracketed-source l r (some ts) t h = (ts, refl)

parts_texts-source :
    (js : Runtime) (o : Option (List Part)) (ts : List String)
    → parts_texts js o ≡ some ts
    → (ps : List Part) × (o ≡ some ps)
parts_texts-source js none ts h = absurd (none-ne-some h)
parts_texts-source js (some ps) ts h = (ps, refl)

add_element-source :
    (o : Option String) (q : Option (List String)) (ts : List String)
    → add_element o q ≡ some ts
    → ((t : String) × (o ≡ some t)) × ((us : List String) × (q ≡ some us))
add_element-source none q ts h = absurd (none-ne-some h)
add_element-source (some t) none ts h = absurd (none-ne-some h)
add_element-source (some t) (some us) ts h = ((t, refl), (us, refl))

add_part-source :
    (js : Runtime) (k : String) (o : Option String) (q : Option (List Part)) (ps : List Part)
    → add_part js k o q ≡ some ps
    → ((t : String) × (o ≡ some t)) × ((qs : List Part) × (q ≡ some qs))
add_part-source js k none q ps h = absurd (none-ne-some h)
add_part-source js k (some t) none ps h = absurd (none-ne-some h)
add_part-source js k (some t) (some qs) ps h = ((t, refl), (qs, refl))

mutual
  unfolding canonicalize

  some-IsEncodable :
      (js : Runtime) (v : JsonValue) (t : String) → canonicalize js v ≡ some t → IsEncodable v
  some-IsEncodable js null t h = tt
  some-IsEncodable js non_finite t h = absurd (none-ne-some h)
  some-IsEncodable js unsupported t h = absurd (none-ne-some h)
  some-IsEncodable js (boolean b) t h = tt
  some-IsEncodable js (number u) t h = tt
  some-IsEncodable js (string s) t h = tt
  some-IsEncodable js (array es) t h =
      let (ts, e) = bracketed-source "[" "]" (canonical_elements js es) t h in
      some_elements js es ts e
  some-IsEncodable js (object plain fs) t h =
      let (ts, e) = bracketed-source "{" "}" (parts_texts js (canonical_fields js fs)) t h in
      let (ps, e') = parts_texts-source js (canonical_fields js fs) ts e in some_fields js fs ps e'
  some-IsEncodable js (object non_plain fs) t h = absurd (none-ne-some h)
  some-IsEncodable js (object custom_to_json fs) t h = absurd (none-ne-some h)

  some_elements :
      (js : Runtime) (es : Elements) (ts : List String)
      → canonical_elements js es ≡ some ts
      → AreEncodable es
  some_elements js no_elements ts h = tt
  some_elements js (hole es) ts h = absurd (none-ne-some h)
  some_elements js (element v es) ts h =
      let ((t, e), (us, e')) =
        add_element-source (canonicalize js v) (canonical_elements js es) ts h in
      (some-IsEncodable js v t e, some_elements js es us e')

  some_fields :
      (js : Runtime) (fs : Fields) (ps : List Part)
      → canonical_fields js fs ≡ some ps
      → HaveEncodable fs
  some_fields js no_fields ps h = tt
  some_fields js (field k v fs) ps h =
      let ((t, e), (qs, e')) =
        add_part-source js k (canonicalize js v) (canonical_fields js fs) ps h in
      (some-IsEncodable js v t e, some_fields js fs qs e')

-- A value has a canonical text exactly when JSON can say it, at every depth.
pub canonicalize-IsEncodable :
    (js : Runtime) (v : JsonValue) → ((t : String) × (canonicalize js v ≡ some t)) ↔ IsEncodable v
canonicalize-IsEncodable js v = (λ (t, e). some-IsEncodable js v t e, encodable_some js v)
