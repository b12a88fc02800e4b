-- ===== src/Tests/FramingRuns.antt =====
-- Runs of src/ipc/framing.ts, with one-byte payloads that stand for themselves.
use xbus.Base.{ℕ, ◌≡◌, refl, ◌++◌, List, [], ◌∷◌, Option, none, some, arith, false}
use xbus.Protocol.Errors.{ok}
use xbus.Ipc.Framing.{encode_frame, write_u32, read_u32, head, push, Drained}
use xbus.Ipc.Framing.Ends.{push-ends}
use xbus.Ipc.Framing.RoundTrip.{push-encode_frame}

abbrev one_byte : ℕ → List ℕ
one_byte n = n ∷ []

abbrev of_byte : List ℕ → Option ℕ
of_byte (n ∷ []) = some n
of_byte _ = none

abbrev frame : ℕ → List ℕ
frame n = 0 ∷ 0 ∷ 0 ∷ 1 ∷ n ∷ []

-- The first read ends within a length prefix, and the second within the next one.
push-encode_frame_example :
    push of_byte 100 0 (0 ∷ 0 ∷ []) (0 ∷ 1 ∷ 5 ∷ 0 ∷ 0 ∷ 0 ∷ 1 ∷ 6 ∷ 0 ∷ 0 ∷ 0 ∷ [])
    ≡ some (0 ∷ 0 ∷ 0 ∷ [], ok (record { frames = 5 ∷ 6 ∷ []; has_more = false }))
unfolding encode_frame write_u32 head read_u32
push-encode_frame_example =
    push-encode_frame one_byte of_byte 100 (0 ∷ 0 ∷ [])
      (0 ∷ 1 ∷ 5 ∷ 0 ∷ 0 ∷ 0 ∷ 1 ∷ 6 ∷ 0 ∷ 0 ∷ 0 ∷ []) (5 ∷ 6 ∷ []) (frame 5 ++ frame 6)
      (0 ∷ 0 ∷ 0 ∷ []) (λ v. refl) (λ v. omega arith) (omega arith)
      (frame 5, frame 6, refl, refl, (frame 6, [], refl, refl, refl)) refl refl

push-ends_example : (d : Drained ℕ) × (push of_byte 100 32 (0 ∷ []) (0 ∷ 0 ∷ 0 ∷ 7 ∷ []) ≡ some d)
push-ends_example = push-ends of_byte 100 32 (0 ∷ []) (0 ∷ 0 ∷ 0 ∷ 7 ∷ [])
