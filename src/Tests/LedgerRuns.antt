-- ===== src/Tests/LedgerRuns.antt =====
-- Runs of src/broker/ledger.ts on a small ledger, with a toy runtime: quoted texts, the order of code
-- points on keys, and the text itself for its hash.
use Prim.Native.Char.{code}
use Prim.Native.String.{String, ◌++◌}
use text.Mathlib.Text.{◌==◌ as str_eq}
use text.Mathlib.TextEquality.{Char-path, eq_iff}
use xbus.Base.{
  ℕ, ◌≡◌, refl, ◌≢◌, ◌↔◌, ◌⊎◌, inl, inr, Bool, true, false, Option, none, some, [], ◌∷◌, arith, ltb,
  ◌==◌, if◌then◌else◌,
}
use xbus.Broker.Ledger.{
  Runtime, JsonValue, plain, object, field, no_fields, string, number, array, element, no_elements,
  null, canonicalize, Ledger, LedgerEvent, LedgerRow, FirstBreak, ledger_append, verify_ledger,
  trust_root, by_seq,
}
use xbus.Broker.Ledger.Canonical.{canonicalize-IsEncodable, IsEncodable}
use xbus.Broker.Ledger.Chain.{verify_ledger-ok_iff, verify_ledger-BreaksAt, IsChain, BreaksAt}
use xbus.Broker.Ledger.Growth.{ledger_append-verify_ledger}
use xbus.Protocol.Errors.{ok}
use xbus.Broker.Ledger.Order.{IsTotalOrder, canonicalize-Reordered, swapped}

unfoldable key_le : String → String → Bool
key_le String.[] t = true
key_le (String.◌∷◌ c s) String.[] = false
key_le (String.◌∷◌ c s) (String.◌∷◌ d t) =
    let rest = key_le s t in
    if ltb (code c) (code d) then true else (if code c == code d then rest else false)

key_le-total : (a b : String) → (key_le a b ≡ true) ⊎ (key_le b a ≡ true)
unfolding key_le
key_le-total String.[] b = inl refl
key_le-total (String.◌∷◌ c s) String.[] = inr refl
key_le-total (String.◌∷◌ c s) (String.◌∷◌ d t) = ground (arith, key_le-total s t)

key_le_trans : (a b c : String) → key_le a b ≡ true → key_le b c ≡ true → key_le a c ≡ true
unfolding key_le
key_le_trans String.[] b c h g = refl
key_le_trans (String.◌∷◌ x a) String.[] c h g = cc
key_le_trans (String.◌∷◌ x a) (String.◌∷◌ y b) String.[] h g = cc
key_le_trans (String.◌∷◌ x a) (String.◌∷◌ y b) (String.◌∷◌ z c) h g =
    ground (arith, key_le_trans a b c)

key_le-antisym : (a b : String) → key_le a b ≡ true → key_le b a ≡ true → a ≡ b
unfolding key_le
key_le-antisym String.[] String.[] h g = refl
key_le-antisym String.[] (String.◌∷◌ d t) h g = cc
key_le-antisym (String.◌∷◌ c s) String.[] h g = cc
key_le-antisym (String.◌∷◌ c s) (String.◌∷◌ d t) h g =
    let same : code c ≡ code d = ground arith in
    let rest : s ≡ t = key_le-antisym s t (ground arith) (ground arith) in
    λ i. String.◌∷◌ (Char-path c d same i) (rest i)

key_le-IsTotalOrder : IsTotalOrder key_le
key_le-IsTotalOrder = record {
  total = key_le-total;
  antisymmetric = key_le-antisym;
  transitive = key_le_trans;
}

abbrev subject : JsonValue
subject = object plain (field "sessionId" (string "s1") no_fields)

abbrev payload : JsonValue
payload = object plain (field "state" (string "queued") (field "attempt" (number "1") no_fields))

-- Writes and reads these two values alone.
abbrev stringify : JsonValue → String
stringify (object plain (field k (string v) no_fields)) = "subject"
stringify _ = "payload"

abbrev parse : String → Option JsonValue
parse t =
    if str_eq t "subject" then some subject else (if str_eq t "payload" then some payload else none)

abbrev js : Runtime
js = record {
  quote = λ s. "'" ++ (s ++ "'");
  stringify = stringify;
  parse = parse;
  key_le = key_le;
  sha256_hex = λ s. s;
}

abbrev dec : ℕ → String
dec n = if n == 8 then "8" else (if n == 1 then "1" else "?")

abbrev event : LedgerEvent
event = record {
  event_id = 40;
  event_type = "MESSAGE_SENT";
  actor = "broker";
  subject = subject;
  payload = payload;
  created_at = "t";
}

-- A ledger whose first seven rows were pruned.
abbrev pruned : Ledger
pruned = record { events = []; anchors = record { anchor_seq = 7; anchor_hash = "h7" } ∷ [] }

sorted_keys : canonicalize js payload ≡ some "{'attempt':1,'state':'queued'}"
unfolding canonicalize key_le
sorted_keys = refl

abbrev event_text : String
event_text =
    "{'actor':'broker','createdAt':'t','eventType':'MESSAGE_SENT','payload':{'attempt':1,'state':'queued'},'seq':8,'subject':{'sessionId':'s1'}}"

abbrev row8 : LedgerRow
row8 = record {
  event_id = 40;
  seq = 8;
  event_type = "MESSAGE_SENT";
  actor = "broker";
  subject_json = "subject";
  payload_json = "payload";
  created_at = "t";
  prev_hash = "h7";
  entry_hash = "h7" ++ event_text;
}

append_pruned : ledger_append js dec event pruned ≡ ok (record pruned { events = row8 ∷ [] })
unfolding ledger_append key_le
append_pruned = refl

-- The row's actor was edited.
abbrev tampered : Ledger
tampered = record pruned { events = record row8 { actor = "operator" } ∷ [] }

tampered_fails : (verify_ledger js dec tampered).is_ok ≡ false
unfolding verify_ledger key_le
tampered_fails = refl

abbrev grown : Ledger
grown = record pruned { events = row8 ∷ [] }

ledger_append-verify_ledger_example :
    (ledger_append js dec event pruned ≡ ok grown) × ((verify_ledger js dec grown).is_ok ≡ true)
unfolding ledger_append verify_ledger key_le
ledger_append-verify_ledger_example =
    ledger_append-verify_ledger js dec event pruned event_text refl tt refl (refl, refl)

verify_ledger-ok_iff_example :
    ((verify_ledger js dec grown).is_ok ≡ true)
    ↔ (IsChain js dec (record { prev_seq = 7; prev_hash = "h7" }) (row8 ∷ []))
unfolding trust_root by_seq
verify_ledger-ok_iff_example = verify_ledger-ok_iff js dec grown

abbrev tampered_break : FirstBreak
tampered_break = record {
  seq = 8;
  expected_prev = "h7";
  actual_prev = "h7";
  recomputed =
      "h7{'actor':'operator','createdAt':'t','eventType':'MESSAGE_SENT','payload':{'attempt':1,'state':'queued'},'seq':8,'subject':{'sessionId':'s1'}}";
  stored = "h7" ++ event_text;
}

verify_ledger-BreaksAt_example :
    BreaksAt js dec
      (trust_root tampered.anchors (by_seq tampered.events))
      (by_seq tampered.events)
      tampered_break
unfolding verify_ledger key_le
verify_ledger-BreaksAt_example = verify_ledger-BreaksAt js dec tampered tampered_break refl

canonicalize-IsEncodable_example :
    ((t : String) × (canonicalize js (array (element null (element payload no_elements))) ≡ some t))
    ↔ IsEncodable (array (element null (element payload no_elements)))
canonicalize-IsEncodable_example =
    canonicalize-IsEncodable js (array (element null (element payload no_elements)))

state_not_attempt : ◌≢◌ {A = String} "state" "attempt"
state_not_attempt = ground (arith, eq_iff "state" "attempt")

canonicalize-Reordered_example :
    canonicalize js payload
    ≡ canonicalize js
        (object plain (field "attempt" (number "1") (field "state" (string "queued") no_fields)))
canonicalize-Reordered_example =
    canonicalize-Reordered js
      (field "state" (string "queued") (field "attempt" (number "1") no_fields))
      (field "attempt" (number "1") (field "state" (string "queued") no_fields)) key_le-IsTotalOrder
      (swapped "state" "attempt" (string "queued") (number "1") no_fields state_not_attempt)
