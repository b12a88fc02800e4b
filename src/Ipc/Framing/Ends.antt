-- ===== src/Ipc/Framing/Ends.antt =====
-- The loop of the decoder of src/ipc/framing.ts.
use xbus.Base.{
  none-ne-some, subst, ap, ℕ, zero, suc, ◌+◌, ◌<◌, ◌≤◌, ◌≡◌, refl, inl, inr, Bool, true, false,
  List, [], ◌∷◌, ◌++◌, Option, none, some, arith, ◌==◌, ltb, length, take, drop, Bool-cases,
}
use xbus.Ipc.Framing.{
  Head, incomplete, fault, complete, head, parsed, read_u32, Drained, after_frame, cap_reached,
  drain_head, drain, push,
}

length-drop : (n : ℕ) (xs : List ℕ) → 0 < n → 0 < length xs → length (drop n xs) < length xs
length-drop (suc n) (x ∷ xs) p q = omega (arith, drop_le n xs)
  where
    drop_le : (n : ℕ) (xs : List ℕ) → length (drop n xs) ≤ length xs
    drop_le zero xs = omega arith
    drop_le (suc n) [] = omega arith
    drop_le (suc n) (x ∷ xs) = omega (arith, drop_le n xs)
length-drop zero xs p q = absurd (ground arith)
length-drop n [] p q = absurd (ground arith)

false-ne-true : ¬ (◌≡◌ {A = Bool} false true)
false-ne-true h = cc

module _ {V : Type 0} where
  left_over : Head V → List ℕ
  left_over (complete v rest) = rest
  left_over _ = []

  is_frame : Head V → Bool
  is_frame (complete v rest) = true
  is_frame _ = false

  parsed-shorter :
      (o : Option V) (rest buf : List ℕ) (v : V) (buf' : List ℕ)
      → length rest < length buf
      → parsed o rest ≡ complete v buf'
      → length buf' < length buf
  unfolding left_over is_frame
  parsed-shorter none rest buf v buf' h e = absurd (false-ne-true (ap is_frame e))
  parsed-shorter (some w) rest buf v buf' h e =
      let same : rest ≡ buf' = ap left_over e in
      subst (λ (x : List ℕ). length x < length buf) same h

module _ {V : Type 0} (parse : List ℕ → Option V) where
  -- A frame takes bytes off the buffer.
  head-shorter :
      (max : ℕ) (buf : List ℕ) (v : V) (buf' : List ℕ)
      → head parse max buf ≡ complete v buf'
      → length buf' < length buf
  unfolding head is_frame
  head-shorter max buf v buf' e = elim (Bool-cases (ltb (length buf) 4)) [
    | inl short ↦ absurd (false-ne-true (ap is_frame (rw (short, head) at e)))
    | inr long ↦ elim (Bool-cases (read_u32 buf == 0)) [
      | inl empty ↦ absurd (false-ne-true (ap is_frame (rw (long, empty, head) at e)))
      | inr full ↦ elim (Bool-cases (ltb max (read_u32 buf))) [
        | inl large ↦ absurd (false-ne-true (ap is_frame (rw (long, full, large, head) at e)))
        | inr small ↦ elim (Bool-cases (ltb (length buf) (4 + read_u32 buf))) [
          | inl part ↦
              absurd (false-ne-true (ap is_frame (rw (long, full, small, part, head) at e)))
          | inr whole ↦
              parsed-shorter (parse (take (read_u32 buf) (drop 4 buf)))
                (drop (4 + read_u32 buf) buf) buf v buf'
                (length-drop (4 + read_u32 buf) buf (omega arith) (ground arith))
                (rw (long, full, small, whole, head) at e)
        ]
      ]
    ]
  ]

  Ends : Option (Drained V) → Type 0
  Ends o = (d : Drained V) × (o ≡ some d)

  after_frame-Ends : (v : V) (o : Option (Drained V)) → Ends o → Ends (after_frame v o)
  unfolding Ends
  after_frame-Ends v none (d, e) = absurd (none-ne-some e)
  after_frame-Ends v (some (buf, r)) (d, e) = (_, refl)

  drain_head-Ends :
      (drain_cap count : ℕ) (buf : List ℕ) (rest : List ℕ → Option (Drained V)) (h : Head V)
      → ((v : V) (buf' : List ℕ) → h ≡ complete v buf' → Ends (rest buf'))
      → Ends (drain_head drain_cap count buf rest h)
  unfolding Ends
  drain_head-Ends drain_cap count buf rest incomplete next = (_, refl)
  drain_head-Ends drain_cap count buf rest (fault e) next = (_, refl)
  drain_head-Ends drain_cap count buf rest (complete v buf') next =
      elim (Bool-cases (cap_reached drain_cap count)) [
        | inl e ↦ rw e (_, refl)
        | inr e ↦ rw e (after_frame-Ends v (rest buf') (next v buf' refl))
      ]

  drain-Ends :
      (max drain_cap fuel count : ℕ) (buf : List ℕ)
      → length buf < fuel
      → Ends (drain parse max drain_cap fuel count buf)
  unfolding drain
  drain-Ends max drain_cap zero count buf h = absurd (ground arith)
  drain-Ends max drain_cap (suc fuel) count buf h =
      drain_head-Ends drain_cap count buf (drain parse max drain_cap fuel (suc count))
        (head parse max buf)
        (λ v buf' e.
          drain-Ends max drain_cap fuel (suc count) buf'
            (omega (arith, head-shorter max buf v buf' e)))

-- A push ends, whatever bytes it is given, what the buffer holds, and what the parser makes of
-- them: each round of the loop takes a frame off the buffer.
pub push-ends :
    {V : Type 0} (parse : List ℕ → Option V) (max drain_cap : ℕ) (buf chunk : List ℕ)
    → (d : Drained V) × (push parse max drain_cap buf chunk ≡ some d)
unfolding push Ends
push-ends parse max drain_cap buf chunk =
    drain-Ends parse max drain_cap (suc (length (buf ++ chunk))) 0 (buf ++ chunk) (omega arith)
