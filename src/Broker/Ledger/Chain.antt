-- ===== src/Broker/Ledger/Chain.antt =====
-- src/broker/ledger.ts: what `verifyLedger` accepts, and where it reports a break.
use text.Mathlib.TextEquality.{eq_iff}
use xbus.Base.{
  ℕ, suc, ◌≡◌, refl, sym, ap, ◌∙◌, ◌↔◌, inl, inr, true, false, List, [], ◌∷◌, ◌++◌, Option, none,
  some, String, arith, ==_iff, Option-cases, none-ne-some, some-eq, length,
}
use xbus.Broker.Ledger.{
  Runtime, Decimal, LedgerRow, Ledger, Link, LedgerVerifyResult, FirstBreak, row_canonical,
  compute_entry_hash, check_row, verify_rows, verify_ledger, trust_root, by_seq, row_link,
  last_link, min_seq,
}

-- A row is the successor of a link: dense, linked, and of a hash that can be recomputed.
abbrev pub IsSuccessor : Runtime → Decimal → Link → LedgerRow → Type 0
IsSuccessor js dec l r =
    (r.seq ≡ suc l.prev_seq)
    × (r.prev_hash ≡ l.prev_hash)
    × ((c : String) × (row_canonical js dec r ≡ some c)
        × (compute_entry_hash js r.prev_hash c ≡ r.entry_hash))

abbrev pub IsChain : Runtime → Decimal → Link → List LedgerRow → Type 0
IsChain js dec l [] = Unit {0}
IsChain js dec l (r ∷ rs) = IsSuccessor js dec l r × IsChain js dec (row_link r) rs

check_row-canonical :
    (js : Runtime) (l : Link) (r : LedgerRow) (c : String)
    → (check_row js l r (some c) ≡ none) ↔ (
        (r.seq ≡ suc l.prev_seq)
        × (r.prev_hash ≡ l.prev_hash)
        × (compute_entry_hash js r.prev_hash c ≡ r.entry_hash))
check_row-canonical js l r c = ground (
  arith,
  ==_iff r.seq (suc l.prev_seq),
  eq_iff r.prev_hash l.prev_hash,
  eq_iff (compute_entry_hash js r.prev_hash c) r.entry_hash,
)

check_row-passes :
    (js : Runtime) (dec : Decimal) (l : Link) (r : LedgerRow) (o : Option String)
    → row_canonical js dec r ≡ o
    → check_row js l r o ≡ none
    → IsSuccessor js dec l r
check_row-passes js dec l r none e h = cc
check_row-passes js dec l r (some c) e h =
    let parts = (check_row-canonical js l r c).0 h in (parts.0, parts.1, (c, e, parts.2))

check_row-accepts :
    (js : Runtime) (dec : Decimal) (l : Link) (r : LedgerRow)
    → IsSuccessor js dec l r
    → check_row js l r (row_canonical js dec r) ≡ none
check_row-accepts js dec l r (dense, linked, (c, e, hashed)) =
    rw e ((check_row-canonical js l r c).1 (dense, linked, hashed))

abbrev pub intact : ℕ → LedgerVerifyResult
intact n = record { is_ok = true; checked = n; first_break = none }

-- A run of the loop over the rows: whether it reports success, row by row.
verify_rows_sound :
    (js : Runtime) (dec : Decimal) (total m : ℕ) (l : Link) (rs : List LedgerRow)
    → (verify_rows js dec total m l rs).is_ok ≡ true
    → IsChain js dec l rs
unfolding verify_rows
verify_rows_sound js dec total m l [] h = tt
verify_rows_sound js dec total m l (r ∷ rs) h =
    elim (Option-cases (check_row js l r (row_canonical js dec r))) [
      | inl e ↦ (
        check_row-passes js dec l r (row_canonical js dec r) refl e,
        verify_rows_sound js dec total m (row_link r) rs (rw e at h),
      )
      | inr (x, e) ↦ let impossible : false ≡ true = rw e at h in cc
    ]

verify_rows_complete :
    (js : Runtime) (dec : Decimal) (total m : ℕ) (l : Link) (rs : List LedgerRow)
    → IsChain js dec l rs
    → verify_rows js dec total m l rs ≡ intact total
unfolding verify_rows
verify_rows_complete js dec total m l [] h = refl
verify_rows_complete js dec total m l (r ∷ rs) h =
    rw (check_row-accepts js dec l r h.0) (verify_rows_complete js dec total m (row_link r) rs h.1)

-- `verifyLedger` reports success exactly on a chain.
pub verify_ledger-ok_iff :
    (js : Runtime) (dec : Decimal) (l : Ledger)
    → ((verify_ledger js dec l).is_ok ≡ true)
      ↔ (IsChain js dec (trust_root l.anchors (by_seq l.events)) (by_seq l.events))
unfolding verify_ledger
verify_ledger-ok_iff js dec l =
    let rows = by_seq l.events in
    let root = trust_root l.anchors rows in
    (
      verify_rows_sound js dec (length rows) (min_seq rows) root rows,
      λ h.
          ap (λ (v : LedgerVerifyResult). v.is_ok)
            (verify_rows_complete js dec (length rows) (min_seq rows) root rows h),
    )

-- The rows in front of the first break, the broken row and the rows behind it.
abbrev pub BreaksAt : Runtime → Decimal → Link → List LedgerRow → FirstBreak → Type 0
BreaksAt js dec l rs b =
    (before : List LedgerRow) × (after : List LedgerRow) × (r : LedgerRow) × (rs
      ≡ before ++ r ∷ after)
    × IsChain js dec l before
    × (¬ IsSuccessor js dec (last_link l before) r)
    × (b.seq ≡ r.seq)
    × (b.expected_prev ≡ (last_link l before).prev_hash)
    × (b.actual_prev ≡ r.prev_hash)
    × (b.stored ≡ r.entry_hash)

verify_rows-breaks :
    (js : Runtime) (dec : Decimal) (total m : ℕ) (l : Link) (rs : List LedgerRow) (b : FirstBreak)
    → (verify_rows js dec total m l rs).first_break ≡ some b
    → BreaksAt js dec l rs b
unfolding verify_rows last_link
verify_rows-breaks js dec total m l [] b h = absurd (none-ne-some h)
verify_rows-breaks js dec total m l (r ∷ rs) b h =
    elim (Option-cases (check_row js l r (row_canonical js dec r))) [
      | inl e ↦
          let (before, after, x, split, chain, bad, at, expected, actual, stored) =
            verify_rows-breaks js dec total m (row_link r) rs b (rw e at h) in
          (
            r ∷ before,
            after,
            x,
            ap (λ ys. r ∷ ys) split,
            (check_row-passes js dec l r (row_canonical js dec r) refl e, chain),
            bad,
            at,
            expected,
            actual,
            stored,
          )
      | inr (x, e) ↦
          let found = some-eq (rw e at h) in
          (
            [],
            rs,
            r,
            refl,
            tt,
            λ good. none-ne-some (sym (check_row-accepts js dec l r good) ∙ e),
            rw (sym found) refl,
            rw (sym found) refl,
            rw (sym found) refl,
            rw (sym found) refl,
          )
    ]

-- The break that `verifyLedger` reports is the first one: the rows in front of it are a chain from
-- the trust root, the row it names does not follow them, and the report gives the hash that the row
-- should have linked to and the two hashes that it holds.
pub verify_ledger-BreaksAt :
    (js : Runtime) (dec : Decimal) (l : Ledger) (b : FirstBreak)
    → (verify_ledger js dec l).first_break ≡ some b
    → BreaksAt js dec (trust_root l.anchors (by_seq l.events)) (by_seq l.events) b
unfolding verify_ledger
verify_ledger-BreaksAt js dec l b h =
    let rows = by_seq l.events in
    verify_rows-breaks js dec (length rows) (min_seq rows) (trust_root l.anchors rows) rows b h
