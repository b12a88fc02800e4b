-- ===== src/Broker/Ledger.antt =====
-- src/broker/ledger.ts: the canonical text of a value, the append of one event to the hash chain,
-- and the verification of the chain. `Runtime` holds what the code takes from JavaScript and Node:
-- `JSON.stringify` of a string and of a value, `JSON.parse`, the order of `Array.sort` on keys, and
-- the hexadecimal SHA-256.
pub mod Canonical
pub mod Chain
pub mod Growth
pub mod Order
use Prim.Native.String.{◌++◌}
use text.Mathlib.Text.{◌==◌ as str_eq}
use xbus.Base.{
  ℕ, suc, ◌-◌, ◌+◌, Bool, true, false, not, ◌||◌, List, [], ◌∷◌, Option, none, some, String, ◌==◌,
  ltb, leb, if◌then◌else◌, length, exists_where, select_where, greatest_by, order_by,
}
use xbus.Protocol.Errors.{XbusErrorCode, Result, ok, err}

-- An object's prototype and its own `toJSON`, as `canonicalize` tells them apart.
pub data ObjectKind : Type 0 where
  plain non_plain custom_to_json : ObjectKind

-- The values that reach `canonicalize`. A finite number is the text that JSON gives it;
-- `unsupported` is undefined, a function, a symbol or a bigint.
mutual
  pub data JsonValue : Type 0 where
    null non_finite unsupported : JsonValue
    boolean : Bool → JsonValue
    number string : String → JsonValue
    array : Elements → JsonValue
    object : ObjectKind → Fields → JsonValue

  pub data Elements : Type 0 where
    no_elements : Elements
    hole : Elements → Elements
    element : JsonValue → Elements → Elements

  pub data Fields : Type 0 where
    no_fields : Fields
    field : String → JsonValue → Fields → Fields

pub record Runtime : Type 0 where
  pub quote : String → String
  pub stringify : JsonValue → String
  pub parse : String → Option JsonValue
  pub key_le : String → String → Bool
  pub sha256_hex : String → String

-- `parts.join(',')`.
unfoldable pub join : List String → String
join [] = ""
join (s ∷ []) = s
join (s ∷ t ∷ rest) = s ++ ("," ++ join (t ∷ rest))

abbrev pub bracketed : String → String → Option (List String) → Option String
bracketed l r none = none
bracketed l r (some parts) = some (l ++ (join parts ++ r))

-- A field's key with the canonical text of its value.
pub record Part : Type 0 where
  pub key : String
  pub text : String

unfoldable pub insert_part : (String → String → Bool) → Part → List Part → List Part
insert_part le p [] = p ∷ []
insert_part le p (q ∷ qs) = if le p.key q.key then p ∷ q ∷ qs else q ∷ insert_part le p qs

abbrev pub add_part : Runtime → String → Option String → Option (List Part) → Option (List Part)
add_part js k none ps = none
add_part js k (some t) none = none
add_part js k (some t) (some ps) = some (insert_part js.key_le (record { key = k; text = t }) ps)

unfoldable pub part_texts : Runtime → List Part → List String
part_texts js [] = []
part_texts js (p ∷ ps) = (js.quote p.key ++ (":" ++ p.text)) ∷ part_texts js ps

abbrev pub parts_texts : Runtime → Option (List Part) → Option (List String)
parts_texts js none = none
parts_texts js (some ps) = some (part_texts js ps)

abbrev pub add_element : Option String → Option (List String) → Option (List String)
add_element none ts = none
add_element (some t) none = none
add_element (some t) (some ts) = some (t ∷ ts)

-- `canonicalize`; none is a `LedgerCanonicalizationError`.
unfoldable mutual
  unfolding insert_part part_texts join

  pub canonicalize : Runtime → JsonValue → Option String
  canonicalize js null = some "null"
  canonicalize js non_finite = none
  canonicalize js unsupported = none
  canonicalize js (boolean true) = some "true"
  canonicalize js (boolean false) = some "false"
  canonicalize js (number t) = some t
  canonicalize js (string s) = some (js.quote s)
  canonicalize js (array es) = bracketed "[" "]" (canonical_elements js es)
  canonicalize js (object plain fs) = bracketed "{" "}" (parts_texts js (canonical_fields js fs))
  canonicalize js (object non_plain fs) = none
  canonicalize js (object custom_to_json fs) = none

  pub canonical_elements : Runtime → Elements → Option (List String)
  canonical_elements js no_elements = some []
  canonical_elements js (hole es) = none
  canonical_elements js (element v es) = add_element (canonicalize js v) (canonical_elements js es)

  pub canonical_fields : Runtime → Fields → Option (List Part)
  canonical_fields js no_fields = some []
  canonical_fields js (field k v fs) = add_part js k (canonicalize js v) (canonical_fields js fs)

-- The columns of `ledger_events`.
pub record LedgerRow : Type 0 where
  pub event_id : ℕ
  pub seq : ℕ
  pub event_type : String
  pub actor : String
  pub subject_json : String
  pub payload_json : String
  pub created_at : String
  pub prev_hash : String
  pub entry_hash : String

pub record LedgerAnchor : Type 0 where
  pub anchor_seq : ℕ
  pub anchor_hash : String

pub record Ledger : Type 0 where
  pub events : List LedgerRow
  pub anchors : List LedgerAnchor

-- `JSON.stringify` of a sequence number, a parameter of the canonical text.
abbrev pub Decimal : Type 0
Decimal = ℕ → String

-- The argument of `ledgerAppend` without its services: the event, and what the clock and `IdGen`
-- give.
pub record LedgerEvent : Type 0 where
  pub event_id : ℕ
  pub event_type : String
  pub actor : String
  pub subject : JsonValue
  pub payload : JsonValue
  pub created_at : String

unfoldable pub canonical_ledger_payload :
    Runtime → Decimal → ℕ → String → String → JsonValue → JsonValue → String → Option String
unfolding canonicalize
canonical_ledger_payload js dec seq event_type actor subject payload created_at = canonicalize js (
    object plain (
      field "seq" (number (dec seq)) (
        field "eventType" (string event_type) (
          field "actor" (string actor) (
            field "subject" subject
              (field "payload" payload (field "createdAt" (string created_at) no_fields)))))))

unfoldable pub compute_entry_hash : Runtime → String → String → String
compute_entry_hash js prev_hash canonical = js.sha256_hex (prev_hash ++ canonical)

abbrev pub genesis_hash : String
genesis_hash = "0000000000000000000000000000000000000000000000000000000000000000"

-- What the next row, or the first surviving one, links to.
pub record Link : Type 0 where
  pub prev_seq : ℕ
  pub prev_hash : String

abbrev pub anchor_link : Option LedgerAnchor → Link
anchor_link none = record { prev_seq = 0; prev_hash = genesis_hash }
anchor_link (some a) = record { prev_seq = a.anchor_seq; prev_hash = a.anchor_hash }

abbrev pub row_link : LedgerRow → Link
row_link r = record { prev_seq = r.seq; prev_hash = r.entry_hash }

-- The link behind the rows that follow a link.
unfoldable pub last_link : Link → List LedgerRow → Link
last_link l [] = l
last_link l (r ∷ rs) = last_link (row_link r) rs

abbrev pub newest_anchor : List LedgerAnchor → Option LedgerAnchor
newest_anchor = greatest_by (λ (a : LedgerAnchor). a.anchor_seq)

unfoldable pub by_seq : List LedgerRow → List LedgerRow
unfolding order_by
by_seq = order_by (λ (r : LedgerRow). r.seq)

-- The row of the highest `seq`, else the newest anchor, else genesis.
unfoldable pub ledger_tip : Ledger → Link
unfolding greatest_by last_link by_seq
ledger_tip l = last_link (anchor_link (newest_anchor l.anchors)) (by_seq l.events)

-- The INSERT under the primary key and the UNIQUE constraint on `seq`.
abbrev pub insert_event : LedgerRow → Ledger → Result Ledger
insert_event r l =
    if exists_where (λ (x : LedgerRow). x.event_id == r.event_id || x.seq == r.seq) l.events
    then err XbusErrorCode.audit_persistence_failed
    else ok (record l { events = r ∷ l.events })

abbrev pub ledger_row : Runtime → LedgerEvent → Link → String → LedgerRow
ledger_row js e tip canonical = record {
  event_id = e.event_id;
  seq = suc tip.prev_seq;
  event_type = e.event_type;
  actor = e.actor;
  subject_json = js.stringify e.subject;
  payload_json = js.stringify e.payload;
  created_at = e.created_at;
  prev_hash = tip.prev_hash;
  entry_hash = compute_entry_hash js tip.prev_hash canonical;
}

abbrev pub append_canonical : Runtime → LedgerEvent → Link → Option String → Ledger → Result Ledger
append_canonical js e tip none l = err XbusErrorCode.audit_persistence_failed
append_canonical js e tip (some c) l = insert_event (ledger_row js e tip c) l

unfoldable pub ledger_append : Runtime → Decimal → LedgerEvent → Ledger → Result Ledger
unfolding ledger_tip exists_where canonical_ledger_payload compute_entry_hash
ledger_append js dec e l =
    let tip = ledger_tip l in
    append_canonical js e tip
      (canonical_ledger_payload js dec (suc tip.prev_seq) e.event_type e.actor e.subject e.payload
        e.created_at)
      l

pub record FirstBreak : Type 0 where
  pub seq : ℕ
  pub expected_prev : String
  pub actual_prev : String
  pub recomputed : String
  pub stored : String

pub record LedgerVerifyResult : Type 0 where
  pub is_ok : Bool
  pub checked : ℕ
  pub first_break : Option FirstBreak

abbrev pub parsed_payload :
    Runtime → Decimal → LedgerRow → Option JsonValue → Option JsonValue → Option String
parsed_payload js dec r none p = none
parsed_payload js dec r (some s) none = none
parsed_payload js dec r (some s) (some p) =
    canonical_ledger_payload js dec r.seq r.event_type r.actor s p r.created_at

-- The canonical text of a stored row, none where its JSON does not parse or has no canonical text.
unfoldable pub row_canonical : Runtime → Decimal → LedgerRow → Option String
unfolding canonical_ledger_payload
row_canonical js dec r = parsed_payload js dec r (js.parse r.subject_json) (js.parse r.payload_json)

abbrev pub broken : ℕ → Link → LedgerRow → String → LedgerVerifyResult
broken min_seq l r recomputed = record {
  is_ok = false;
  checked = r.seq - min_seq;
  first_break = some (record {
    seq = r.seq;
    expected_prev = l.prev_hash;
    actual_prev = r.prev_hash;
    recomputed = recomputed;
    stored = r.entry_hash;
  });
}

-- The test of one row, with what was recomputed.
abbrev pub check_row : Runtime → Link → LedgerRow → Option String → Option String
check_row js l r none = some "unparseable"
check_row js l r (some c) =
    if not (r.seq == suc l.prev_seq)
      || (not (str_eq r.prev_hash l.prev_hash)
          || not (str_eq (compute_entry_hash js r.prev_hash c) r.entry_hash))
    then some (compute_entry_hash js r.prev_hash c)
    else none

abbrev pub verify_step :
    ℕ → Link → LedgerRow → Option String → LedgerVerifyResult → LedgerVerifyResult
verify_step min_seq l r none rest = rest
verify_step min_seq l r (some recomputed) rest = broken min_seq l r recomputed

-- The loop; `total` is `rows.length`.
unfoldable pub verify_rows : Runtime → Decimal → ℕ → ℕ → Link → List LedgerRow → LedgerVerifyResult
unfolding row_canonical compute_entry_hash
verify_rows js dec total min_seq l [] = record { is_ok = true; checked = total; first_break = none }
verify_rows js dec total min_seq l (r ∷ rs) =
    verify_step min_seq l r (check_row js l r (row_canonical js dec r))
      (verify_rows js dec total min_seq (row_link r) rs)

-- The newest anchor strictly below the smallest surviving `seq`, else genesis.
unfoldable pub trust_root : List LedgerAnchor → List LedgerRow → Link
unfolding greatest_by select_where
trust_root anchors [] = anchor_link none
trust_root anchors (r ∷ rs) =
    anchor_link
      (newest_anchor (select_where (λ (a : LedgerAnchor). ltb a.anchor_seq r.seq) anchors))

abbrev pub min_seq : List LedgerRow → ℕ
min_seq [] = 0
min_seq (r ∷ rs) = r.seq

unfoldable pub verify_ledger : Runtime → Decimal → Ledger → LedgerVerifyResult
unfolding by_seq trust_root verify_rows
verify_ledger js dec l =
    let rows = by_seq l.events in
    verify_rows js dec (length rows) (min_seq rows) (trust_root l.anchors rows) rows
