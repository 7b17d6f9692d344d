-- ===== src/Cobs/Bound.antt =====
-- The length of a frame against `frame_max`.
use oep_client_python.Prelude.{
  ℕ, zero, suc, ◌+◌, ◌/◌, ◌%◌, ◌≤◌, ◌≡◌, max, sym, ap, inl, inr, [], ◌∷◌, ◌++◌, arith, length,
  length-append, Bool-cases, List-cases, ◌==◌, if◌then◌else◌,
}
use oep_client_python.Try.{Error, raise, Try-cases, ok, >>=-eq_ok}
use oep_client_python.Bytes.{Bytes}
use oep_client_python.Cobs.{block, encode_loop, encode, frame, frame_max, to_byte, crc16}
use oep_client_python.Cobs.Block.{block-le}
use oep_client_python.Cobs.Inverse.{taken, encode_last, encode_more, length_after, encode_stop}

-- The longest code string of n bytes: a code for every 254 bytes, and one for none.
abbrev code_max : ℕ → ℕ
code_max n = max 1 (n + (n + 253) / 254)

-- A round that goes on, taken apart.
encode_more_inversion :
    (fuel b : ℕ) (rest bs out : Bytes)
    → (block 254 rest).1 ≡ b ∷ bs
    → encode_loop (suc fuel) rest ≡ ok out
    → (next : Bytes) × (encode_loop fuel (if length (taken rest) + 1 == 0xff then b ∷ bs else bs)
        ≡ ok next)
      × (out ≡ (length (taken rest) + 1) ∷ (taken rest ++ next))
encode_more_inversion fuel b rest bs out e h =
    elim (Try-cases (encode_loop fuel (if length (taken rest) + 1 == 0xff then b ∷ bs else bs))) [
      | inl (next, more) ↦ (next, more, cc (encode_more fuel rest b bs next e more))
      | inr (x, more) ↦ absurd (stops x more)
    ]
  where
    stops :
        (x : Error)
        → encode_loop fuel (if length (taken rest) + 1 == 0xff then b ∷ bs else bs) ≡ raise x
        → ⊥
    stops x more = cc (encode_stop fuel b rest bs x e more)

encode_loop-le :
    (fuel : ℕ) (rest out : Bytes)
    → encode_loop fuel rest ≡ ok out
    → length out ≤ code_max (length rest)
encode_loop-le zero rest out e = unfold encode_loop in cc
encode_loop-le (suc fuel) rest out e = elim (List-cases (block 254 rest).1) [
  | inl last ↦
      let size : length out ≡ suc (length (taken rest)) = cc (encode_last fuel rest last) in
      omega (arith, size, length_after rest [] last, block-le 254 rest)
  | inr (b, bs, after) ↦
      let (next, more, whole) = encode_more_inversion fuel b rest bs out after e in
      let size : length out ≡ suc (length (taken rest ++ next)) = ap length whole in
      elim (Bool-cases (length (taken rest) + 1 == 0xff)) [
        | inl full ↦
            let ih = encode_loop-le fuel (b ∷ bs) next (rw full at more) in
            ground (
              arith,
              size,
              ih,
              full,
              length-append (taken rest) next,
              length_after rest (b ∷ bs) after,
            )
        | inr open_ ↦
            let ih = encode_loop-le fuel bs next (rw open_ at more) in
            ground (
              arith,
              size,
              ih,
              open_,
              length-append (taken rest) next,
              length_after rest (b ∷ bs) after,
              block-le 254 rest,
            )
      ]
]

length_ok : {a b : Bytes} → ok a ≡ ok b → length a ≡ length b
length_ok e = cc

-- A frame is never longer than `frame_max` of its message's length.
pub length-frame-le-frame_max :
    (message raw : Bytes) → frame message ≡ ok raw → length raw ≤ frame_max (length message)
unfolding frame frame_max encode
length-frame-le-frame_max message raw e =
    let crc = crc16 message 0xffff in
    let (low, _, e1) = >>=-eq_ok (to_byte (crc % 256)) _ e in
    let (high, _, e2) = >>=-eq_ok (to_byte (crc / 256)) _ e1 in
    let (out, encoded, e3) = >>=-eq_ok (encode (message ++ (low ∷ high ∷ []))) _ e2 in
    let size : length raw ≡ suc (length (out ++ (0 ∷ []))) = sym (length_ok e3) in
    omega (
      arith,
      size,
      length-append out (0 ∷ []),
      length-append message (low ∷ high ∷ []),
      encode_loop-le _ (message ++ (low ∷ high ∷ [])) out encoded,
    )
