-- ===== src/Cobs/RoundTrip.antt =====
-- COBS and frames: decoding undoes encoding, a framed message is read back, and a message altered in one
-- byte is refused.
use oep_client_python.Prelude.{
  ℕ, ◌+◌, ◌-◌, ◌*◌, ◌/◌, ◌%◌, ◌≡◌, ◌≢◌, refl, sym, ◌∙◌, Bool, true, false, not, [], ◌∷◌, ◌++◌,
  arith, length, length-append, take-append, drop-append, All, ◌==◌, if◌then◌else◌, ltb,
}
use oep_client_python.Try.{ok, raise, corrupt_frame, ◌>>=◌, require}
use oep_client_python.Bytes.{Bytes, IsByte}
use oep_client_python.Cobs.{encode, decode, frame, unframe, crc16, to_byte}
use oep_client_python.Cobs.Inverse.{Decodes, encode_loop-Encodes}
use oep_client_python.Cobs.Crc.{crc16-lt, crc16_detects}

-- Encoding ends on every input, with a code string that has no zero byte and that decodes to the input.
pub decode-encode :
    (bytes : Bytes)
    → (out : Bytes) × (encode bytes ≡ ok out) × All (λ b. b ≢ 0) out × (decode out ≡ ok bytes)
unfolding encode decode Decodes
decode-encode bytes =
    let (out, e) = encode_loop-Encodes (length bytes + 1) bytes (omega arith) in
    (out, e.encoded, e.no_zero, e.decodes (length out) (omega arith))

-- The two bytes that `frame` puts behind a message.
abbrev pub crc_bytes : Bytes → Bytes
crc_bytes message = crc16 message 0xffff % 256 ∷ crc16 message 0xffff / 256 ∷ []

frame-eq :
    (message out : Bytes)
    → All IsByte message
    → encode (message ++ crc_bytes message) ≡ ok out
    → frame message ≡ ok (0 ∷ (out ++ (0 ∷ [])))
unfolding frame to_byte
frame-eq message out h e = let low = crc16-lt message 0xffff (omega arith) h in ground (arith, low)

require_last :
    (test : Bool) (body : Bytes)
    → (require test corrupt_frame >>= λ _. ok body)
      ≡ (if test then ok body else raise corrupt_frame)
require_last true body = refl
require_last false body = refl

-- What `unframe` does with a code string of a message and two bytes: it compares the CRC.
unframe-eq :
    (raw message : Bytes) (low high : ℕ)
    → message ≢ []
    → decode raw ≡ ok (message ++ (low ∷ high ∷ []))
    → unframe raw ≡ (
        if crc16 message 0xffff == low + 256 * (high + 256 * 0)
        then ok message
        else raise corrupt_frame)
unfolding unframe
unframe-eq raw [] low high filled e = absurd (filled refl)
unframe-eq raw (m ∷ ms) low high filled e =
    let n : length ((m ∷ ms) ++ (low ∷ high ∷ [])) - 2 ≡ length (m ∷ ms) =
      omega (arith, length-append ms (low ∷ high ∷ [])) in
    let long : not (ltb (length ((m ∷ ms) ++ (low ∷ high ∷ []))) 3) ≡ true =
      ground (arith, length-append ms (low ∷ high ∷ [])) in
    rw (e, long, n, take-append, drop-append)
      (require_last (crc16 (m ∷ ms) 0xffff == low + 256 * (high + 256 * 0)) (m ∷ ms))

-- A message that is not empty is framed between two zero bytes with no zero in between, and what stands
-- between them is read back as the message.
pub unframe-frame :
    (message : Bytes)
    → message ≢ []
    → All IsByte message
    → (out : Bytes) × (frame message ≡ ok (0 ∷ (out ++ (0 ∷ []))))
      × All (λ b. b ≢ 0) out
      × (unframe out ≡ ok message)
unframe-frame message filled h =
    let (out, encoded, no_zero, decoded) = decode-encode (message ++ crc_bytes message) in
    let low : crc16 message 0xffff % 256 + 256 * (crc16 message 0xffff / 256 + 256 * 0)
        ≡ crc16 message 0xffff =
      omega arith in
    let same : (crc16 message 0xffff == crc16 message 0xffff) ≡ true = ground arith in
    (
      out,
      frame-eq message out h encoded,
      no_zero,
      unframe-eq out message _ _ filled decoded ∙ rw (low, same) refl,
    )

-- A frame whose message was altered in one byte, the CRC that of the message before, is refused as corrupt:
-- the two bytes behind the message are those that `frame` wrote for it.
pub unframe_altered :
    (front back out : Bytes) (a b : ℕ)
    → All IsByte front
    → All IsByte back
    → IsByte a
    → IsByte b
    → a ≢ b
    → encode ((front ++ (b ∷ back)) ++ crc_bytes (front ++ (a ∷ back))) ≡ ok out
    → unframe out ≡ raise corrupt_frame
unframe_altered front back out a b hf hb ha hb' differ e =
    let altered : Bytes = front ++ (b ∷ back) in
    let crc : ℕ = crc16 (front ++ (a ∷ back)) 0xffff in
    let (out', encoded, no_zero, decoded) =
      decode-encode (altered ++ crc_bytes (front ++ (a ∷ back))) in
    let same : out ≡ out' = cc in
    let low : crc % 256 + 256 * (crc / 256 + 256 * 0) ≡ crc = omega arith in
    let seen : crc16 altered 0xffff ≢ crc =
      λ p. crc16_detects front back a b 0xffff (omega arith) hf hb ha hb' differ (sym p) in
    let refused : (crc16 altered 0xffff == crc) ≡ false = ground arith in
    rw same (unframe-eq out' altered _ _ (filled front) decoded ∙ rw (low, refused) refl)
  where
    filled : (xs : Bytes) → xs ++ (b ∷ back) ≢ []
    filled [] p = cc
    filled (x ∷ xs) p = cc
