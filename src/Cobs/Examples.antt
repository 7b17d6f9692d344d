-- ===== src/Cobs/Examples.antt =====
-- Runs of the serial framing on concrete bytes, and its theorems at concrete inputs.
use oep_client_python.Prelude.{◌≡◌, ◌≢◌, refl, [], ◌∷◌, ◌++◌, arith, All}
use oep_client_python.Try.{ok, raise, corrupt_frame}
use oep_client_python.Bytes.{Bytes}
use oep_client_python.Cobs.{crc16, encode, decode, frame, unframe}
use oep_client_python.Cobs.RoundTrip.{decode-encode, crc_bytes, unframe-frame, unframe_altered}

-- "123456789" -> 0x29B1
crc16_check :
    crc16 (b'1' ∷ b'2' ∷ b'3' ∷ b'4' ∷ b'5' ∷ b'6' ∷ b'7' ∷ b'8' ∷ b'9' ∷ []) 0xffff ≡ 0x29b1
unfolding crc16
crc16_check = refl

abbrev message : Bytes
message = 2 ∷ 0 ∷ 7 ∷ 0 ∷ 0 ∷ []

abbrev framed : Bytes
framed = 0 ∷ 2 ∷ 2 ∷ 2 ∷ 7 ∷ 1 ∷ 3 ∷ 31 ∷ 208 ∷ 0 ∷ []

decode_past_the_end : decode (5 ∷ 1 ∷ []) ≡ raise corrupt_frame
unfolding decode
decode_past_the_end = refl

encode_zeros : encode (0 ∷ 0 ∷ 3 ∷ []) ≡ ok (1 ∷ 1 ∷ 2 ∷ 3 ∷ [])
unfolding encode
encode_zeros = refl

decode-encode_example :
    (out : Bytes) × (encode message ≡ ok out) × All (λ b. b ≢ 0) out × (decode out ≡ ok message)
decode-encode_example = decode-encode message

unframe-frame_example :
    (out : Bytes) × (frame message ≡ ok (0 ∷ (out ++ (0 ∷ []))))
    × All (λ b. b ≢ 0) out
    × (unframe out ≡ ok message)
unframe-frame_example = unframe-frame message (λ e. cc) (omega arith)

abbrev altered_frame : Bytes
altered_frame = 6 ∷ 1 ∷ 6 ∷ 3 ∷ 173 ∷ 173 ∷ []

altered_bytes : encode (1 ∷ 6 ∷ 3 ∷ crc_bytes (1 ∷ 2 ∷ 3 ∷ [])) ≡ ok altered_frame
unfolding encode crc16
altered_bytes = refl

run_of_frame : frame message ≡ ok framed
unfolding frame crc16 encode
run_of_frame = refl

unframe_altered_example : unframe altered_frame ≡ raise corrupt_frame
unframe_altered_example =
    unframe_altered (1 ∷ []) (3 ∷ []) altered_frame 2 6 (omega arith) (omega arith) (omega arith)
      (omega arith) (omega arith) altered_bytes
