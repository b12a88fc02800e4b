-- ===== src/Ipc/Framing.antt =====
-- src/ipc/framing.ts: frames of a 4-byte big-endian length and a JSON payload. Bytes are natural
-- numbers; the JSON of a value in UTF-8 and its parsing are the parameters `stringify` and `parse`.
pub mod Ends
pub mod RoundTrip
use xbus.Base.{
  ℕ, zero, suc, ◌+◌, ◌*◌, ◌/◌, ◌%◌, Bool, true, false, not, ◌&&◌, List, [], ◌∷◌, ◌++◌, Option, none,
  some, ◌==◌, ltb, leb, length, take, drop, if◌then◌else◌,
}
use xbus.Protocol.Errors.{XbusErrorCode, Result, ok, err, frame_too_large, protocol_violation}

abbrev pub prefix_bytes : ℕ
prefix_bytes = 4

-- `writeUInt32BE` and `readUInt32BE` at 0.
unfoldable pub write_u32 : ℕ → List ℕ
write_u32 n = n / 16777216 % 256 ∷ n / 65536 % 256 ∷ n / 256 % 256 ∷ n % 256 ∷ []

unfoldable pub read_u32 : List ℕ → ℕ
read_u32 (a ∷ b ∷ c ∷ d ∷ _) = a * 16777216 + b * 65536 + c * 256 + d
read_u32 _ = 0

abbrev pub frame_of : List ℕ → List ℕ
frame_of json = write_u32 (length json) ++ json

unfoldable pub encode_frame : {V : Type 0} → (V → List ℕ) → ℕ → V → Result (List ℕ)
unfolding write_u32
encode_frame stringify max_frame_bytes v =
    if ltb max_frame_bytes (length (stringify v))
    then err frame_too_large
    else ok (frame_of (stringify v))

-- What the head of the buffer holds: no complete frame, a fault, or a frame and the rest.
pub data Head (V : Type 0) : Type 0 where
  incomplete : Head V
  fault : XbusErrorCode → Head V
  complete : V → List ℕ → Head V

abbrev pub parsed : {V : Type 0} → Option V → List ℕ → Head V
parsed none rest = fault protocol_violation
parsed (some v) rest = complete v rest

-- One round of `drain`: a length over the cap is refused before its body has arrived.
unfoldable pub head : {V : Type 0} → (List ℕ → Option V) → ℕ → List ℕ → Head V
unfolding read_u32
head parse max_frame_bytes buf =
    let len = read_u32 buf in
    if ltb (length buf) prefix_bytes
    then incomplete
    else (if len == 0
        then fault protocol_violation
        else (if ltb max_frame_bytes len
            then fault frame_too_large
            else (if ltb (length buf) (prefix_bytes + len)
                then incomplete
                else parsed (parse (take len (drop prefix_bytes buf)))
                    (drop (prefix_bytes + len) buf))))

unfoldable pub has_complete_frame : List ℕ → Bool
unfolding read_u32
has_complete_frame buf =
    if ltb (length buf) prefix_bytes then false else leb (prefix_bytes + read_u32 buf) (length buf)

pub record DecodeResult (V : Type 0) : Type 0 where
  pub frames : List V
  pub has_more : Bool

-- The buffer that stays, and what `drain` returns or throws.
abbrev pub Drained : Type 0 → Type 0
Drained V = List ℕ × Result (DecodeResult V)

abbrev pub push_frame : {V : Type 0} → V → Result (DecodeResult V) → Result (DecodeResult V)
push_frame v (ok r) = ok (record r { frames = v ∷ r.frames })
push_frame v (err e) = err e

abbrev pub after_frame : {V : Type 0} → V → Option (Drained V) → Option (Drained V)
after_frame v none = none
after_frame v (some (buf, r)) = some (buf, push_frame v r)

-- One more frame than `count` ends the call where the cap is reached; 0 stands for no cap.
abbrev pub cap_reached : ℕ → ℕ → Bool
cap_reached drain_cap count = not (drain_cap == 0) && leb drain_cap (suc count)

abbrev pub drain_head :
    {V : Type 0} → ℕ → ℕ → List ℕ → (List ℕ → Option (Drained V)) → Head V → Option (Drained V)
drain_head drain_cap count buf rest incomplete =
    some (buf, ok (record { frames = []; has_more = false }))
drain_head drain_cap count buf rest (fault e) = some (buf, err e)
drain_head drain_cap count buf rest (complete v buf') =
    let out = rest buf' in
    if cap_reached drain_cap count
    then some (buf', ok (record { frames = v ∷ []; has_more = has_complete_frame buf' }))
    else after_frame v out

-- The loop, on fuel; none stands for fuel that has run out.
unfoldable pub drain :
    {V : Type 0} → (List ℕ → Option V) → ℕ → ℕ → ℕ → ℕ → List ℕ → Option (Drained V)
unfolding head has_complete_frame
drain parse max_frame_bytes drain_cap zero count buf = none
drain parse max_frame_bytes drain_cap (suc fuel) count buf =
    drain_head drain_cap count buf (drain parse max_frame_bytes drain_cap fuel (suc count))
      (head parse max_frame_bytes buf)

-- `push`, with fuel for every frame that the buffer can hold.
unfoldable pub push :
    {V : Type 0} → (List ℕ → Option V) → ℕ → ℕ → List ℕ → List ℕ → Option (Drained V)
push parse max_frame_bytes drain_cap buf chunk =
    drain parse max_frame_bytes drain_cap (suc (length (buf ++ chunk))) 0 (buf ++ chunk)
