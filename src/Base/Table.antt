-- ===== src/Base/Table.antt =====
-- SQL tables as lists of rows: `UPDATE … WHERE`, the number of rows that an update changes,
-- `SELECT … WHERE`, the first row of a query, and `ORDER BY … ASC` by a numeric key.
use Prim.Native.Nat.{ℕ, suc, ◌≤◌}
use mathlib.Core.Path.{◌≡◌, refl, sym, ap}
use mathlib.Core.Bool.{Bool, true, false}
use mathlib.Core.Logic.{inl, inr, ◌⊎◌}
use mathlib.Core.List.{List, [], ◌∷◌, ◌++◌}
use mathlib.Core.Option.{Option, none, some}
use native.Mathlib.Omega.{arith}
use xbus.Base.Bools.{if◌then◌else◌, leb, Bool-cases}
use xbus.Base.Lists.{All, All-weaken}

module _ {ℓ} {A : Type ℓ} where
  pub none-ne-some : {x : A} → ¬ (◌≡◌ {A = Option A} none (some x))
  none-ne-some h = cc

  pub some-eq : {x y : A} → ◌≡◌ {A = Option A} (some x) (some y) → x ≡ y
  some-eq h = cc

  unfoldable pub update_where : (A → Bool) → (A → A) → List A → List A
  update_where p f [] = []
  update_where p f (x ∷ xs) = (if p x then f x else x) ∷ update_where p f xs

  unfoldable pub count_where : (A → Bool) → List A → ℕ
  count_where p [] = 0
  count_where p (x ∷ xs) = let rest = count_where p xs in if p x then suc rest else rest

  unfoldable pub select_where : (A → Bool) → List A → List A
  select_where p [] = []
  select_where p (x ∷ xs) = let rest = select_where p xs in if p x then x ∷ rest else rest

  unfoldable pub first_where : (A → Bool) → List A → Option A
  first_where p [] = none
  first_where p (x ∷ xs) = if p x then some x else first_where p xs

  unfoldable pub exists_where : (A → Bool) → List A → Bool
  exists_where p [] = false
  exists_where p (x ∷ xs) = if p x then true else exists_where p xs

  -- The first row with the greatest key: `ORDER BY … DESC LIMIT 1`.
  unfoldable pub greatest_by : (A → ℕ) → List A → Option A
  greatest_by key [] = none
  greatest_by key (x ∷ xs) = elim (greatest_by key xs) [
    | none ↦ some x
    | some y ↦ if leb (key y) (key x) then some x else some y
  ]

  abbrev pub AtMost : (A → ℕ) → A → Option A → Type 0
  AtMost key x none = ⊥
  AtMost key x (some y) = key x ≤ key y

  AtMost-pick :
      (key : A → ℕ) (x y : A) (xs : List A) (b : Bool)
      → leb (key y) (key x) ≡ b
      → All (λ z. key z ≤ key y) xs
      → All (λ z. AtMost key z (if b then some x else some y)) (x ∷ xs)
  AtMost-pick key x y xs true e h = (omega arith, All-weaken _ _ xs (λ z f. ground arith) h)
  AtMost-pick key x y xs false e h = (ground arith, h)

  AtMost-step :
      (key : A → ℕ) (x : A) (xs : List A) (o : Option A)
      → All (λ z. AtMost key z o) xs
      → All
          (λ z.
            AtMost key z
              (elim o [ none ↦ some x | some y ↦ if leb (key y) (key x) then some x else some y ]))
          (x ∷ xs)
  AtMost-step key x xs none h = (omega arith, All-weaken _ _ xs (λ z f. absurd f) h)
  AtMost-step key x xs (some y) h = AtMost-pick key x y xs (leb (key y) (key x)) refl h

  -- No row's key is above that of the row that `greatest_by` finds.
  pub greatest_by-AtMost :
      (key : A → ℕ) (xs : List A) → All (λ z. AtMost key z (greatest_by key xs)) xs
  unfolding greatest_by
  greatest_by-AtMost key [] = tt
  greatest_by-AtMost key (x ∷ xs) =
      AtMost-step key x xs (greatest_by key xs) (greatest_by-AtMost key xs)

  unfoldable pub insert_by : (A → ℕ) → A → List A → List A
  insert_by key x [] = x ∷ []
  insert_by key x (y ∷ ys) = if leb (key x) (key y) then x ∷ y ∷ ys else y ∷ insert_by key x ys

  unfoldable pub order_by : (A → ℕ) → List A → List A
  unfolding insert_by
  order_by key [] = []
  order_by key (x ∷ xs) = insert_by key x (order_by key xs)

  -- An update that keeps a predicate row by row keeps it on the table.
  pub All-update_where {κ} :
      (P : A → Type κ) (p : A → Bool) (f : A → A) (xs : List A)
      → ((x : A) → p x ≡ true → P x → P (f x))
      → All P xs
      → All P (update_where p f xs)
  unfolding update_where
  All-update_where P p f [] keep h = tt
  All-update_where P p f (x ∷ xs) keep h = elim (Bool-cases (p x)) [
    | inl e ↦ rw e (keep x e h.0, All-update_where P p f xs keep h.1)
    | inr e ↦ rw e (h.0, All-update_where P p f xs keep h.1)
  ]

  pub first_where-holds :
      (p : A → Bool) (xs : List A) (x : A) → first_where p xs ≡ some x → p x ≡ true
  unfolding first_where
  first_where-holds p [] x e = ground arith
  first_where-holds p (y ∷ ys) x e = ground (arith, first_where-holds p ys x)

  abbrev pub updated : (A → Bool) → (A → A) → Option A → Option A
  updated q f none = none
  updated q f (some x) = some (if q x then f x else x)

  -- A query by what an update keeps finds the updated row.
  pub first_where-updated :
      (p q : A → Bool) (f : A → A) (xs : List A)
      → ((a : A) → p (f a) ≡ p a)
      → first_where p (update_where q f xs) ≡ updated q f (first_where p xs)
  unfolding first_where update_where
  first_where-updated p q f [] keep = refl
  first_where-updated p q f (a ∷ as') keep = elim (Bool-cases (q a)) [
    | inl on ↦ elim (Bool-cases (p a)) [
      | inl hit ↦ rw (on, keep a, hit, on) refl
      | inr miss ↦ rw (on, keep a, miss) (first_where-updated p q f as' keep)
    ]
    | inr off ↦ elim (Bool-cases (p a)) [
      | inl hit ↦ rw (off, hit, off) refl
      | inr miss ↦ rw (off, miss) (first_where-updated p q f as' keep)
    ]
  ]

  pub first_where-none :
      (p : A → Bool) (xs : List A) → All (λ x. p x ≡ false) xs → first_where p xs ≡ none
  unfolding first_where
  first_where-none p [] h = refl
  first_where-none p (x ∷ xs) h = rw h.0 (first_where-none p xs h.1)

  -- A row appended behind rows that the query misses.
  pub first_where-append :
      (p : A → Bool) (xs : List A) (x : A)
      → first_where p xs ≡ none
      → p x ≡ true
      → first_where p (xs ++ (x ∷ [])) ≡ some x
  unfolding first_where
  first_where-append p [] x h e = rw e refl
  first_where-append p (y ∷ ys) x h e = elim (Bool-cases (p y)) [
    | inl hit ↦ absurd (none-ne-some (sym (rw hit at h)))
    | inr miss ↦ rw miss (first_where-append p ys x (rw miss at h) e)
  ]

  pub exists_where-here :
      (p : A → Bool) (x : A) (xs : List A) → p x ≡ true → exists_where p (x ∷ xs) ≡ true
  unfolding exists_where
  exists_where-here p x xs e = rw e

  pub exists_where-there :
      (p : A → Bool) (x : A) (xs : List A)
      → exists_where p xs ≡ true
      → exists_where p (x ∷ xs) ≡ true
  unfolding exists_where
  exists_where-there p x xs e = elim (Bool-cases (p x)) [ inl h ↦ rw h | inr h ↦ rw h e ]

  -- A query finds a row again after an update that keeps the query's test.
  pub first_where-update_where :
      (p q : A → Bool) (f : A → A) (xs : List A) (x : A)
      → ((a : A) → p (f a) ≡ p a)
      → first_where p xs ≡ some x
      → (y : A) × (first_where p (update_where q f xs) ≡ some y) × ((y ≡ x) ⊎ (y ≡ f x))
  unfolding first_where update_where
  first_where-update_where p q f [] x keep e = absurd (none-ne-some e)
  first_where-update_where p q f (a ∷ as') x keep e = elim (Bool-cases (p a)) [
    | inl hit ↦
        let same : a ≡ x = some-eq (rw hit at e) in
        elim (Bool-cases (q a)) [
          | inl on ↦ (f a, rw (on, keep a, hit) refl, inr (ap f same))
          | inr off ↦ (a, rw (off, hit) refl, inl same)
        ]
    | inr miss ↦
        let rest = first_where-update_where p q f as' x keep (rw miss at e) in
        elim (Bool-cases (q a)) [
          | inl on ↦ (rest.0, rw (on, keep a, miss) rest.1, rest.2)
          | inr off ↦ (rest.0, rw (off, miss) rest.1, rest.2)
        ]
  ]

  -- A query finds the row it found, where an update leaves the rows alone that the query tests for.
  pub first_where-update_where-other :
      (p q : A → Bool) (f : A → A) (xs : List A)
      → ((a : A) → q a ≡ true → p a ≡ false)
      → ((a : A) → p (f a) ≡ p a)
      → first_where p (update_where q f xs) ≡ first_where p xs
  unfolding first_where update_where
  first_where-update_where-other p q f [] other keep = refl
  first_where-update_where-other p q f (a ∷ as') other keep =
      let rest = first_where-update_where-other p q f as' other keep in
      elim (Bool-cases (q a)) [
        | inl on ↦ rw (on, keep a, other a on) rest
        | inr off ↦ elim (Bool-cases (p a)) [
          | inl hit ↦ rw (off, hit) refl
          | inr miss ↦ rw (off, miss) rest
        ]
      ]

  -- An update that selects no row changes nothing.
  pub count_where-zero-update_where :
      (p : A → Bool) (f : A → A) (xs : List A) → count_where p xs ≡ 0 → update_where p f xs ≡ xs
  unfolding count_where update_where
  count_where-zero-update_where p f [] e = refl
  count_where-zero-update_where p f (x ∷ xs) e =
      ground (arith, count_where-zero-update_where p f xs)

  pub All-select_where {κ} :
      (P : A → Type κ) (p : A → Bool) (xs : List A)
      → ((x : A) → p x ≡ true → P x)
      → All P (select_where p xs)
  unfolding select_where
  All-select_where P p [] h = tt
  All-select_where P p (x ∷ xs) h = elim (Bool-cases (p x)) [
    | inl e ↦ rw e (h x e, All-select_where P p xs h)
    | inr e ↦ rw e (All-select_where P p xs h)
  ]

  All-insert_by {κ} :
      (P : A → Type κ) (key : A → ℕ) (x : A) (xs : List A)
      → P x
      → All P xs
      → All P (insert_by key x xs)
  unfolding insert_by
  All-insert_by P key x [] hx h = (hx, tt)
  All-insert_by P key x (y ∷ ys) hx h = elim (Bool-cases (leb (key x) (key y))) [
    | inl e ↦ rw e (hx, h)
    | inr e ↦ rw e (h.0, All-insert_by P key x ys hx h.1)
  ]

  pub All-order_by {κ} :
      (P : A → Type κ) (key : A → ℕ) (xs : List A) → All P xs → All P (order_by key xs)
  unfolding order_by
  All-order_by P key [] h = tt
  All-order_by P key (x ∷ xs) h =
      All-insert_by P key x (order_by key xs) h.0 (All-order_by P key xs h.1)

  insert_by-All {κ} :
      (P : A → Type κ) (key : A → ℕ) (x : A) (xs : List A)
      → All P (insert_by key x xs)
      → P x × All P xs
  unfolding insert_by
  insert_by-All P key x [] h = h
  insert_by-All P key x (y ∷ ys) h = elim (Bool-cases (leb (key x) (key y))) [
    | inl e ↦ rw e at h
    | inr e ↦
        let both : P y × All P (insert_by key x ys) = rw e at h in
        let rest = insert_by-All P key x ys both.1 in (rest.0, (both.0, rest.1))
  ]

  pub order_by-All {κ} :
      (P : A → Type κ) (key : A → ℕ) (xs : List A) → All P (order_by key xs) → All P xs
  unfolding order_by
  order_by-All P key [] h = tt
  order_by-All P key (x ∷ xs) h =
      let both = insert_by-All P key x (order_by key xs) h in (both.0, order_by-All P key xs both.1)

  -- An update that keeps a test keeps whether a row passes it.
  pub exists_where-update_where :
      (p q : A → Bool) (f : A → A) (xs : List A)
      → ((a : A) → p (f a) ≡ p a)
      → exists_where p (update_where q f xs) ≡ exists_where p xs
  unfolding exists_where update_where
  exists_where-update_where p q f [] keep = refl
  exists_where-update_where p q f (x ∷ xs) keep = elim (Bool-cases (q x)) [
    | inl on ↦ rw (on, keep x, exists_where-update_where p q f xs keep) refl
    | inr off ↦ rw (off, exists_where-update_where p q f xs keep) refl
  ]

  pub exists_where-All :
      (p : A → Bool) (xs : List A) → All (λ x. p x ≡ false) xs → exists_where p xs ≡ false
  unfolding exists_where
  exists_where-All p [] h = refl
  exists_where-All p (x ∷ xs) h = rw (h.0, exists_where-All p xs h.1) refl

  -- Each row's key is at most the keys of the rows behind it.
  abbrev pub IsOrdered : (A → ℕ) → List A → Type 0
  IsOrdered key [] = Unit {0}
  IsOrdered key (x ∷ xs) = All (λ y. key x ≤ key y) xs × IsOrdered key xs

  All-key_mono :
      (key : A → ℕ) (m n : ℕ) (xs : List A)
      → m ≤ n
      → All (λ y. n ≤ key y) xs
      → All (λ y. m ≤ key y) xs
  All-key_mono key m n [] h a = tt
  All-key_mono key m n (x ∷ xs) h a = (omega arith, All-key_mono key m n xs h a.1)

  insert_by-IsOrdered :
      (key : A → ℕ) (x : A) (xs : List A) → IsOrdered key xs → IsOrdered key (insert_by key x xs)
  unfolding insert_by
  insert_by-IsOrdered key x [] h = (tt, tt)
  insert_by-IsOrdered key x (y ∷ ys) h = elim (Bool-cases (leb (key x) (key y))) [
    | inl e ↦ rw e ((ground arith, All-key_mono key (key x) (key y) ys (ground arith) h.0), h)
    | inr e ↦ rw e (
      All-insert_by (λ z. key y ≤ key z) key x ys (ground arith) h.0,
      insert_by-IsOrdered key x ys h.1,
    )
  ]

  pub order_by-IsOrdered : (key : A → ℕ) (xs : List A) → IsOrdered key (order_by key xs)
  unfolding order_by
  order_by-IsOrdered key [] = tt
  order_by-IsOrdered key (x ∷ xs) =
      insert_by-IsOrdered key x (order_by key xs) (order_by-IsOrdered key xs)
