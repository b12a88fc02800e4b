-- ===== src/Identity/Routable.antt =====
-- src/identity/session-name.ts with src/identity/aliases.ts: a session's name as a recipient.
use Prim.Native.Char.{code}
use Prim.Native.String.{count}
use Prim.Native.String.count
use Prim.Native.String.compare
use text.Mathlib.Text.{◌==◌ as str_eq, is_eq, starts_with}
use mathlib.Core.Path.{ap, subst}
use xbus.Base.{
  ℕ, zero, suc, ◌≡◌, refl, inl, inr, Bool, true, false, not, ◌&&◌, ◌||◌, List, [], ◌∷◌, none,
  String, arith, ◌==◌, if◌then◌else◌, Bool-cases, leb,
}
use xbus.Protocol.Errors.{ok, err, invalid_alias, invalid_session_name, err-ne-ok}
use xbus.Identity.Aliases.{
  all_chars, session_prefix, matches, groups_of, uuid_pattern, is_dash, is_hex, is_uuid, is_alias,
  is_alias_char, split_slash, parse_recipient, alias,
}
use xbus.Identity.SessionName.{
  Texts, NormalizedSessionName, is_session_name, is_name_char, is_lower_hex, is_lower_uuid,
  is_refused_name, validate_session_name, is_one_of, is_all_numeric, reserved_session_names,
  generic_session_names, is_path_like, is_ascii_name,
}

abbrev pub is_no_dot : ℕ → Bool
is_no_dot c = not (c == b'.')

-- Each test of the one pattern gives the one of the other on the characters of a name.
abbrev Refines : List (ℕ → Bool) → List (ℕ → Bool) → Type 0
Refines [] [] = Unit {0}
Refines [] (q ∷ qs) = ⊥
Refines (p ∷ ps) [] = ⊥
Refines (p ∷ ps) (q ∷ qs) =
    ((c : ℕ) → p c ≡ true → is_name_char c ≡ true → q c ≡ true) × Refines ps qs

matches_refined :
    (ps qs : List (ℕ → Bool)) (s : String)
    → Refines ps qs
    → matches ps s ≡ true
    → all_chars is_name_char s ≡ true
    → matches qs s ≡ true
unfolding matches all_chars
matches_refined [] [] s r m a = m
matches_refined [] (q ∷ qs) s r m a = absurd r
matches_refined (p ∷ ps) [] s r m a = absurd r
matches_refined (p ∷ ps) (q ∷ qs) String.[] r m a = m
matches_refined (p ∷ ps) (q ∷ qs) (String.◌∷◌ c s) r m a =
    ground (arith, r.0 (code c), matches_refined ps qs s r.1)

groups_refined :
    (n : ℕ) (ps qs : List (ℕ → Bool))
    → Refines ps qs
    → Refines (groups_of is_hex n ps) (groups_of is_lower_hex n qs)
unfolding groups_of
groups_refined zero ps qs r = r
groups_refined (suc n) ps qs r = (λ c h a. ground arith, groups_refined n ps qs r)

-- A dash and the groups behind it.
abbrev dashed : ℕ → (ℕ → Bool) → List (ℕ → Bool) → List (ℕ → Bool)
unfolding groups_of
dashed n p ps = is_dash ∷ groups_of p n ps

dashed_refined :
    (n : ℕ) (ps qs : List (ℕ → Bool))
    → Refines ps qs
    → Refines (dashed n is_hex ps) (dashed n is_lower_hex qs)
unfolding groups_of
dashed_refined n ps qs r = (λ c h a. h, groups_refined n ps qs r)

abbrev tail : ℕ → (ℕ → Bool) → List (ℕ → Bool)
unfolding groups_of
tail zero p = dashed 12 p []
tail (suc n) p = dashed 4 p (tail n p)

tail_refined : (n : ℕ) → Refines (tail n is_hex) (tail n is_lower_hex)
unfolding groups_of
tail_refined zero = dashed_refined 12 [] [] tt
tail_refined (suc n) = dashed_refined 4 (tail n is_hex) (tail n is_lower_hex) (tail_refined n)

uuid_refined : Refines (uuid_pattern is_hex) (uuid_pattern is_lower_hex)
unfolding uuid_pattern groups_of
uuid_refined = groups_refined 8 (tail 3 is_hex) (tail 3 is_lower_hex) (tail_refined 3)

no_slash : (s : String) → all_chars is_name_char s ≡ true → split_slash s ≡ none
unfolding all_chars split_slash
no_slash String.[] a = refl
no_slash (String.◌∷◌ c s) a = ground (arith, no_slash s)

alias_chars :
    (s : String)
    → all_chars is_name_char s ≡ true
    → all_chars is_alias_char s ≡ all_chars is_no_dot s
unfolding all_chars
alias_chars String.[] a = refl
alias_chars (String.◌∷◌ c s) a = ground (arith, alias_chars s)

name_chars :
    (s : String)
    → is_session_name s ≡ true
    → (all_chars is_name_char s ≡ true)
      × ((leb 1 (count s) && leb (count s) 128 ≡ true) × (str_eq s "" ≡ false))
unfolding is_session_name all_chars
name_chars String.[] h = ground arith
name_chars (String.◌∷◌ c s) h =
    (ground arith, (ground (arith, count.cons c s), ap is_eq (compare.cons-nil c s)))

name-not-uuid :
    (s : String) → all_chars is_name_char s ≡ true → is_lower_uuid s ≡ false → is_uuid s ≡ false
unfolding is_lower_uuid is_uuid
name-not-uuid s a l = elim (Bool-cases (matches (uuid_pattern is_hex) s)) [
  | inl h ↦
      ground (
        arith,
        matches_refined (uuid_pattern is_hex) (uuid_pattern is_lower_hex) s uuid_refined h a,
      )
  | inr h ↦ h
]

name-is_alias :
    (s : String)
    → all_chars is_name_char s ≡ true
    → (leb 1 (count s) && leb (count s) 128) ≡ true
    → is_alias s ≡ all_chars is_no_dot s
unfolding is_alias
name-is_alias s a n = ground (arith, alias_chars s a)

parse_name :
    (trim : String → String) (s : String)
    → trim s ≡ s
    → is_session_name s ≡ true
    → is_lower_uuid s ≡ false
    → parse_recipient trim s ≡ (if all_chars is_no_dot s then ok (alias s) else err invalid_alias)
unfolding parse_recipient
parse_name trim s t h l =
    let facts = name_chars s h in
    let uuid = name-not-uuid s facts.0 l in
    let named = name-is_alias s facts.0 facts.1.0 in
    rw (t, facts.1.1, uuid, no_slash s facts.0, named)

-- What a test that fails gives of its parts.
or_none : (a b : Bool) → (a || b) ≡ false → (a ≡ false) × (b ≡ false)
or_none a b h = ground arith

not_none : (a : Bool) → not a ≡ false → a ≡ true
not_none a h = ground arith

refused_forms :
    (s : String)
    → is_refused_name s ≡ false
    → (is_session_name s ≡ true) × (is_lower_uuid s ≡ false)
unfolding is_refused_name
refused_forms s h =
    let form = or_none (not (is_session_name s)) _ h in
    let prefix = or_none (starts_with s session_prefix) _ form.1 in
    let reserved = or_none (is_one_of reserved_session_names s) _ prefix.1 in
    let generic = or_none (is_one_of generic_session_names s) _ reserved.1 in
    let numeric = or_none (is_all_numeric s) (is_lower_uuid s) generic.1 in
    (not_none (is_session_name s) form.0, numeric.1)

-- What a chain of two guards gives.
guarded :
    (a b : Bool) (m n : NormalizedSessionName)
    → (if a then err invalid_session_name else (if b then err invalid_session_name else ok m))
      ≡ ok n
    → (b ≡ false) × (m ≡ n)
guarded true b m n h = absurd (err-ne-ok h)
guarded false true m n h = absurd (err-ne-ok h)
guarded false false m n h = ground arith

-- Both facts on the name's small form.
abbrev IsPlain : String → Type 0
IsPlain s = (is_session_name s ≡ true) × (is_lower_uuid s ≡ false)

validated :
    (t : Texts) (raw : String) (n : NormalizedSessionName)
    → validate_session_name t raw ≡ ok n
    → (is_session_name n.normalized ≡ true) × (is_lower_uuid n.normalized ≡ false)
unfolding validate_session_name
validated t raw n h =
    let facts =
      guarded (str_eq raw "" || (is_path_like (t.nfc raw) || not (is_ascii_name (t.nfc raw))))
        (not (leb 2 (count (t.nfc raw)) && leb (count (t.nfc raw)) 48)
          || is_refused_name (t.lower (t.nfc raw)))
        (record { display = raw; normalized = t.lower (t.nfc raw) }) n h in
    let forms =
      refused_forms (t.lower (t.nfc raw))
        (or_none (not (leb 2 (count (t.nfc raw)) && leb (count (t.nfc raw)) 48)) _ facts.0).1 in
    subst (λ m. IsPlain m.normalized) facts.1 forms

-- A session's name that is accepted, given as a recipient, is read as the alias of that text if it
-- has no dot in it, and is refused as an invalid alias if it has one; `trim` keeps the name.
pub parse_recipient-validate_session_name :
    (t : Texts) (trim : String → String) (raw : String) (n : NormalizedSessionName)
    → validate_session_name t raw ≡ ok n
    → trim n.normalized ≡ n.normalized
    → parse_recipient trim n.normalized
      ≡ (if all_chars is_no_dot n.normalized then ok (alias n.normalized) else err invalid_alias)
parse_recipient-validate_session_name t trim raw n h trimmed =
    let facts = validated t raw n h in parse_name trim n.normalized trimmed facts.0 facts.1
