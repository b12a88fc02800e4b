-- ===== src/Ipc/Framing/RoundTrip.antt =====
-- Encoding and decoding of src/ipc/framing.ts, one after the other.
use xbus.Base.{
  ap, sym, ◌∙◌, ℕ, zero, suc, ◌+◌, ◌*◌, ◌/◌, ◌%◌, ◌<◌, ◌≤◌, ◌≡◌, refl, inl, inr, false, List, [],
  ◌∷◌, ◌++◌, Option, some, arith, ◌==◌, ltb, length, take, drop, Bool-cases, length-append,
}
use xbus.Protocol.Errors.{XbusErrorCode, Result, ok, err}
use xbus.Ipc.Framing.{
  incomplete, complete, head, parsed, read_u32, write_u32, frame_of, encode_frame, drain, push,
}

-- Four bytes hold a length below 2 ^ 32.
bytes-sum :
    (n : ℕ)
    → n < 4294967296
    → n / 16777216 % 256 * 16777216 + n / 65536 % 256 * 65536 + n / 256 % 256 * 256 + n % 256 ≡ n
bytes-sum n h = omega arith

read_u32-write_u32 : (n : ℕ) (xs : List ℕ) → n < 4294967296 → read_u32 (write_u32 n ++ xs) ≡ n
unfolding read_u32 write_u32
read_u32-write_u32 n xs h = bytes-sum n h

take-append : (xs ys : List ℕ) → take (length xs) (xs ++ ys) ≡ xs
take-append [] ys = refl
take-append (x ∷ xs) ys = ap (λ zs. x ∷ zs) (take-append xs ys)

drop-append : (xs ys : List ℕ) → drop (length xs) (xs ++ ys) ≡ ys
drop-append [] ys = refl
drop-append (x ∷ xs) ys = drop-append xs ys

append_assoc : (xs ys zs : List ℕ) → (xs ++ ys) ++ zs ≡ xs ++ (ys ++ zs)
append_assoc [] ys zs = refl
append_assoc (x ∷ xs) ys zs = ap (λ ws. x ∷ ws) (append_assoc xs ys zs)

encode_frame-ok :
    {V : Type 0} (stringify : V → List ℕ) (max : ℕ) (v : V) (bytes : List ℕ)
    → encode_frame stringify max v ≡ ok bytes
    → (bytes ≡ frame_of (stringify v)) × (ltb max (length (stringify v)) ≡ false)
unfolding encode_frame
encode_frame-ok stringify max v bytes h = elim (Bool-cases (ltb max (length (stringify v)))) [
  | inl e ↦ absurd (err-ne-ok (rw (e, encode_frame) at h))
  | inr e ↦ (sym (ok-eq (rw (e, encode_frame) at h)), e)
]
  where
    err-ne-ok : {b : List ℕ} {e : XbusErrorCode} → ¬ (◌≡◌ {A = Result (List ℕ)} (err e) (ok b))
    err-ne-ok h = cc

    ok-eq : {a b : List ℕ} → ◌≡◌ {A = Result (List ℕ)} (ok a) (ok b) → a ≡ b
    ok-eq h = cc

drop_prefix : (n a b c d : ℕ) (xs : List ℕ) → drop (4 + n) (a ∷ b ∷ c ∷ d ∷ xs) ≡ drop n xs
drop_prefix n a b c d xs = ap (λ k. drop k (a ∷ b ∷ c ∷ d ∷ xs)) (four n)
  where
    four : (n : ℕ) → 4 + n ≡ suc (suc (suc (suc n)))
    four n = omega arith

length_frame : (json more : List ℕ) → length (frame_of json ++ more) ≡ 4 + length json + length more
unfolding write_u32
length_frame json more = omega (arith, length-append json more)

-- The bytes are the values' frames, one after another.
abbrev pub Encoded : {V : Type 0} → (V → List ℕ) → ℕ → List V → List ℕ → Type 0
Encoded stringify max [] bytes = bytes ≡ []
Encoded stringify max (v ∷ vs) bytes =
    (frame : List ℕ) × (more : List ℕ) × (encode_frame stringify max v ≡ ok frame)
    × (bytes ≡ frame ++ more)
    × Encoded stringify max vs more

module _ {V : Type 0} (stringify : V → List ℕ) (parse : List ℕ → Option V) (max : ℕ) where
  head-frame_of :
      (json rest : List ℕ)
      → 0 < length json
      → length json < 4294967296
      → ltb max (length json) ≡ false
      → head parse max (frame_of json ++ rest) ≡ parsed (parse json) rest
  unfolding head write_u32
  head-frame_of json rest some_bytes small fits =
      let len = read_u32-write_u32 (length json) (json ++ rest) small in
      let long : ltb (length (frame_of json ++ rest)) 4 ≡ false = ground arith in
      let full : (length json == 0) ≡ false = ground arith in
      let whole : ltb (length (frame_of json ++ rest)) (4 + length json) ≡ false =
        ground (arith, length-append json rest) in
      let body : drop (4 + length json) (frame_of json ++ rest) ≡ rest =
        drop_prefix (length json) _ _ _ _ (json ++ rest) ∙ drop-append json rest in
      rw (len, long, full, fits, whole, body, take-append json rest) refl

  Encoded-length :
      (vs : List V) (bytes : List ℕ) → Encoded stringify max vs bytes → length vs ≤ length bytes
  Encoded-length [] bytes h = omega arith
  Encoded-length (v ∷ vs) bytes (frame, more, e, same, h) =
      let (shape, _) = encode_frame-ok stringify max v frame e in
      let size : length bytes ≡ 4 + length (stringify v) + length more =
        ap length (same ∙ ap (λ f. f ++ more) shape) ∙ length_frame (stringify v) more in
      omega (arith, size, Encoded-length vs more h)

  drain-Encoded :
      (fuel count : ℕ) (vs : List V) (bytes tail : List ℕ)
      → ((v : V) → parse (stringify v) ≡ some v)
      → ((v : V) → 0 < length (stringify v))
      → max < 4294967296
      → length vs < fuel
      → head parse max tail ≡ incomplete
      → Encoded stringify max vs bytes
      → drain parse max 0 fuel count (bytes ++ tail)
        ≡ some (tail, ok (record { frames = vs; has_more = false }))
  unfolding drain
  drain-Encoded zero count vs bytes tail inverse filled cap enough stop h = absurd (ground arith)
  drain-Encoded (suc fuel) count [] bytes tail inverse filled cap enough stop h = rw (h, stop) refl
  drain-Encoded (suc fuel) count (v ∷ vs) bytes tail inverse filled cap enough stop
        (frame, more, e, same, h) =
      let json = stringify v in
      let (shape, fits) = encode_frame-ok stringify max v frame e in
      let bytes_are : bytes ++ tail ≡ frame_of json ++ (more ++ tail) =
        ap (λ b. b ++ tail) (same ∙ ap (λ f. f ++ more) shape)
        ∙ append_assoc (frame_of json) more tail in
      let first : head parse max (frame_of json ++ (more ++ tail)) ≡ complete v (more ++ tail) =
        head-frame_of json (more ++ tail) (filled v) (ground arith) fits
        ∙ ap (λ o. parsed o (more ++ tail)) (inverse v) in
      let rest =
        drain-Encoded fuel (suc count) vs more tail inverse filled cap (omega arith) stop h in
      rw (bytes_are, first, rest) refl

-- However the bytes are split: where what is buffered and what arrives make up the frames of some
-- values, encoded under the decoder's own cap, and the beginning of a further frame, an uncapped
-- push returns these values in their order and keeps that beginning. The parser must invert the
-- JSON of a value, which is never empty, and the cap must fit the length prefix.
pub push-encode_frame :
    {V : Type 0} (stringify : V → List ℕ) (parse : List ℕ → Option V) (max : ℕ) (buf chunk : List ℕ)
    (vs : List V) (bytes tail : List ℕ)
    → ((v : V) → parse (stringify v) ≡ some v)
    → ((v : V) → 0 < length (stringify v))
    → max < 4294967296
    → Encoded stringify max vs bytes
    → buf ++ chunk ≡ bytes ++ tail
    → head parse max tail ≡ incomplete
    → push parse max 0 buf chunk ≡ some (tail, ok (record { frames = vs; has_more = false }))
unfolding push
push-encode_frame stringify parse max buf chunk vs bytes tail inverse filled cap h same stop =
    let size = Encoded-length stringify parse max vs bytes h in
    rw same (
      drain-Encoded stringify parse max (suc (length (bytes ++ tail))) 0 vs bytes tail inverse
        filled cap (omega (arith, size, length-append bytes tail)) stop h)
