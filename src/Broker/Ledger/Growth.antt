-- ===== src/Broker/Ledger/Growth.antt =====
-- src/broker/ledger.ts: what `ledgerAppend` does to a ledger that verifies.
use xbus.Base.{
  ℕ, suc, ◌≡◌, refl, ◌<◌, ◌≤◌, true, false, List, [], ◌∷◌, ◌++◌, Option, none, some, String, arith,
  ◌==◌, ltb, All, All-weaken, greatest_by-AtMost, order_by-All, exists_where, exists_where-All,
  ◌||◌, select_where, insert_by,
}
use xbus.Protocol.Errors.{ok}
use xbus.Broker.Ledger.{
  Runtime, Decimal, LedgerRow, LedgerEvent, LedgerAnchor, Ledger, Link, canonical_ledger_payload,
  row_canonical, ledger_append, ledger_row, ledger_tip, verify_ledger, trust_root, by_seq, row_link,
  last_link, anchor_link, newest_anchor,
}
use xbus.Broker.Ledger.Chain.{IsChain, IsSuccessor, verify_ledger-ok_iff}

-- Rows of a chain are below the sequence number that comes next.
chain_below :
    (js : Runtime) (dec : Decimal) (l : Link) (rs : List LedgerRow)
    → IsChain js dec l rs
    → (l.prev_seq ≤ (last_link l rs).prev_seq)
      × All (λ (r : LedgerRow). r.seq ≤ (last_link l rs).prev_seq) rs
unfolding last_link
chain_below js dec l [] h = (omega arith, tt)
chain_below js dec l (r ∷ rs) h =
    let rest = chain_below js dec (row_link r) rs h.1 in
    (omega (arith, rest.0, h.0.0), (rest.0, rest.1))

IsChain-snoc :
    (js : Runtime) (dec : Decimal) (l : Link) (rs : List LedgerRow) (r : LedgerRow)
    → IsChain js dec l rs
    → IsSuccessor js dec (last_link l rs) r
    → IsChain js dec l (rs ++ r ∷ [])
unfolding last_link
IsChain-snoc js dec l [] r h s = (s, tt)
IsChain-snoc js dec l (x ∷ xs) r h s = (h.0, IsChain-snoc js dec (row_link x) xs r h.1 s)

insert_by-greatest :
    (r : LedgerRow) (rs : List LedgerRow)
    → All (λ (x : LedgerRow). x.seq < r.seq) rs
    → insert_by (λ (x : LedgerRow). x.seq) r rs ≡ rs ++ r ∷ []
unfolding insert_by
insert_by-greatest r [] h = refl
insert_by-greatest r (x ∷ xs) h = ground (arith, insert_by-greatest r xs h.1, h.0)

select_where-All :
    (as' : List LedgerAnchor) (n : ℕ)
    → All (λ (x : LedgerAnchor). x.anchor_seq ≤ n) as'
    → select_where (λ (x : LedgerAnchor). ltb x.anchor_seq (suc n)) as' ≡ as'
unfolding select_where
select_where-All [] n h = refl
select_where-All (x ∷ xs) n h = ground (arith, select_where-All xs n h.1, h.0)

-- A row that follows the newest anchor is verified from that anchor.
trust_root-newest :
    (anchors : List LedgerAnchor) (o : Option LedgerAnchor) (r : LedgerRow)
    → newest_anchor anchors ≡ o
    → r.seq ≡ suc (anchor_link o).prev_seq
    → trust_root anchors (r ∷ []) ≡ anchor_link o
unfolding trust_root
trust_root-newest [] none r e next = refl
trust_root-newest (x ∷ xs) none r e next =
    let bound = (greatest_by-AtMost {A = LedgerAnchor} (λ a. a.anchor_seq) (x ∷ xs)).0 in
    absurd (rw e at bound)
trust_root-newest anchors (some a) r e next =
    let bound = greatest_by-AtMost {A = LedgerAnchor} (λ x. x.anchor_seq) anchors in
    rw (next, select_where-All anchors a.anchor_seq (rw e at bound), e) refl

-- The chain under a ledger's rows, from the trust root of those rows.
abbrev IsSound : Runtime → Decimal → Ledger → Type 0
IsSound js dec l = IsChain js dec (trust_root l.anchors (by_seq l.events)) (by_seq l.events)

-- The rows of a ledger with one more that follows the tip.
grown-IsChain :
    (js : Runtime) (dec : Decimal) (anchors : List LedgerAnchor) (rows : List LedgerRow)
    (r : LedgerRow)
    → IsChain js dec (trust_root anchors rows) rows
    → IsSuccessor js dec (last_link (anchor_link (newest_anchor anchors)) rows) r
    → IsChain js dec (trust_root anchors (rows ++ r ∷ [])) (rows ++ r ∷ [])
      × All (λ (x : LedgerRow). x.seq < r.seq) rows
unfolding last_link trust_root
grown-IsChain js dec anchors [] r h s =
    (rw (trust_root-newest anchors (newest_anchor anchors) r refl s.0) (s, tt), tt)
grown-IsChain js dec anchors (x ∷ xs) r h s =
    let root = trust_root anchors (x ∷ xs) in
    let below = (chain_below js dec root (x ∷ xs) h).1 in
    (
      IsChain-snoc js dec root (x ∷ xs) r h s,
      All-weaken _ _ (x ∷ xs) (λ y le. omega (arith, s.0)) below,
    )

-- A ledger with one more row that follows the tip.
insert-IsSound :
    (js : Runtime) (dec : Decimal) (l : Ledger) (r : LedgerRow)
    → IsSound js dec l
    → IsSuccessor js dec (ledger_tip l) r
    → IsSound js dec (record l { events = r ∷ l.events })
      × All (λ (x : LedgerRow). x.seq < r.seq) (by_seq l.events)
unfolding by_seq ledger_tip
insert-IsSound js dec l r h s =
    let grown = grown-IsChain js dec l.anchors (by_seq l.events) r h s in
    (rw (insert_by-greatest r (by_seq l.events) grown.1) grown.0, grown.1)

-- The event can be read back from the JSON that is stored of it.
abbrev pub ReadsBack : Runtime → LedgerEvent → Type 0
ReadsBack js e =
    (js.parse (js.stringify e.subject) ≡ some e.subject)
    × (js.parse (js.stringify e.payload) ≡ some e.payload)

ledger_row-IsSuccessor :
    (js : Runtime) (dec : Decimal) (e : LedgerEvent) (tip : Link) (c : String)
    → ReadsBack js e
    → canonical_ledger_payload js dec
        (suc tip.prev_seq)
        e.event_type
        e.actor
        e.subject
        e.payload
        e.created_at
      ≡ some c
    → IsSuccessor js dec tip (ledger_row js e tip c)
unfolding row_canonical
ledger_row-IsSuccessor js dec e tip c (subject, payload) h =
    (refl, refl, (c, rw (subject, payload) h, refl))

All-both :
    (r : LedgerRow) (xs : List LedgerRow)
    → All (λ (x : LedgerRow). (x.event_id == r.event_id) ≡ false) xs
    → All (λ (x : LedgerRow). x.seq < r.seq) xs
    → All (λ (x : LedgerRow). (x.event_id == r.event_id || x.seq == r.seq) ≡ false) xs
All-both r [] f g = tt
All-both r (x ∷ xs) f g = (ground (arith, f.0, g.0), All-both r xs f.1 g.1)

-- No row has the id of the event.
abbrev pub IsFresh : LedgerEvent → Ledger → Type 0
IsFresh e l = All (λ (x : LedgerRow). (x.event_id == e.event_id) ≡ false) l.events

insert_event-free :
    (l : Ledger) (r : LedgerRow)
    → All (λ (x : LedgerRow). (x.event_id == r.event_id) ≡ false) l.events
    → All (λ (x : LedgerRow). x.seq < r.seq) (by_seq l.events)
    → exists_where (λ (x : LedgerRow). x.event_id == r.event_id || x.seq == r.seq) l.events ≡ false
unfolding by_seq
insert_event-free l r fresh below =
    let seqs = order_by-All (λ (x : LedgerRow). x.seq < r.seq) (λ x. x.seq) l.events below in
    exists_where-All (λ (x : LedgerRow). x.event_id == r.event_id || x.seq == r.seq) l.events
      (All-both r l.events fresh seqs)

-- Where a ledger verifies, an event with a canonical text, under an id that no row has, is appended
-- as the one new row, behind the tip, and the ledger that results verifies, provided that the event
-- can be read back from its JSON.
pub ledger_append-verify_ledger :
    (js : Runtime) (dec : Decimal) (e : LedgerEvent) (l : Ledger) (c : String)
    → (verify_ledger js dec l).is_ok ≡ true
    → IsFresh e l
    → canonical_ledger_payload js dec
        (suc (ledger_tip l).prev_seq)
        e.event_type
        e.actor
        e.subject
        e.payload
        e.created_at
      ≡ some c
    → ReadsBack js e
    → let after = record l { events = ledger_row js e (ledger_tip l) c ∷ l.events } in
      (ledger_append js dec e l ≡ ok after) × ((verify_ledger js dec after).is_ok ≡ true)
unfolding ledger_append
ledger_append-verify_ledger js dec e l c intact fresh h back =
    let r = ledger_row js e (ledger_tip l) c in
    let s = ledger_row-IsSuccessor js dec e (ledger_tip l) c back h in
    let grown = insert-IsSound js dec l r ((verify_ledger-ok_iff js dec l).0 intact) s in
    (
      rw (h, insert_event-free l r fresh grown.1) refl,
      (verify_ledger-ok_iff js dec (record l { events = r ∷ l.events })).1 grown.0,
    )
