-- ===== src/Cobs.antt =====
-- src/oep_client/cobs.py: frames on a serial port, a message and its CRC-16 COBS-encoded between two
-- zero bytes. A loop over data[i:] takes that list; its fuel is the list's length and one.
mod Block
pub mod Inverse
pub mod RoundTrip
pub mod Bound
pub mod Crc
mod Examples
use oep_client_python.Prelude.{
  ℕ, zero, suc, ◌+◌, ◌-◌, ◌*◌, ◌/◌, ◌%◌, Bool, ◌&&◌, ◌||◌, not, List, [], ◌∷◌, ◌++◌, ltb, ◌==◌,
  length, take, drop, bit_and, bit_xor, if◌then◌else◌,
}
use oep_client_python.Try.{
  Try, ok, raise, corrupt_frame, value_error, loop_bound, ◌>>=◌, ◌>>◌, require,
}
use oep_client_python.Bytes.{Bytes, le_value}

-- One round of the inner loop of `crc16`; `& 0xFFFF` is `% 65536`.
unfoldable pub crc_bit : ℕ → ℕ
crc_bit crc = if bit_and crc 0x8000 == 0 then crc * 2 % 65536 else bit_xor (crc * 2) 0x1021 % 65536

-- for _ in range(rounds)
unfoldable pub crc_bits : ℕ → ℕ → ℕ
unfolding crc_bit
crc_bits zero crc = crc
crc_bits (suc rounds) crc = crc_bits rounds (crc_bit crc)

unfoldable pub crc16 : Bytes → ℕ → ℕ
unfolding crc_bits
crc16 [] crc = crc
crc16 (b ∷ bs) crc = crc16 bs (crc_bits 8 (bit_xor crc (b * 256)))

-- The inner loop of `encode`: data[i:j], at most `room` bytes that are not zero, and data[j:].
unfoldable pub block : ℕ → Bytes → Bytes × Bytes
block zero rest = ([], rest)
block (suc room) [] = ([], [])
block (suc room) (b ∷ bs) =
    let (taken, after) = block room bs in if b == 0 then ([], b ∷ bs) else (b ∷ taken, after)

-- What follows a block: nothing, after a full block the next byte, else the byte behind the zero.
unfoldable pub encode_loop : ℕ → Bytes → Try Bytes
unfolding block
encode_loop zero rest = raise loop_bound
encode_loop (suc fuel) rest =
    let (taken, after) = block 254 rest in
    let code = length taken + 1 in
    elim after [
      | [] ↦ ok (code ∷ taken)
      | b ∷ bs ↦ do
        out ← encode_loop fuel (if code == 0xff then b ∷ bs else bs)
        ok (code ∷ (taken ++ out))
    ]

unfoldable pub encode : Bytes → Try Bytes
unfolding encode_loop
encode bytes = encode_loop (length bytes + 1) bytes

unfoldable pub is_empty : Bytes → Bool
is_empty rest = length rest == 0

unfoldable pub decode_loop : ℕ → Bytes → Try Bytes
unfolding is_empty
decode_loop fuel [] = ok []
decode_loop zero (code ∷ rest) = raise loop_bound
decode_loop (suc fuel) (code ∷ rest) =
    let after = drop (code - 1) rest in
    do
      require (not (code == 0 || ltb (length rest) (code - 1))) corrupt_frame
      out ← decode_loop fuel after
      ok (take (code - 1) rest ++ ((if code == 0xff || is_empty after then [] else 0 ∷ []) ++ out))

unfoldable pub decode : Bytes → Try Bytes
unfolding decode_loop
decode raw = decode_loop (length raw) raw

-- bytes([…]) of a value past 255 is ValueError.
unfoldable pub to_byte : ℕ → Try ℕ
to_byte v = if ltb v 256 then ok v else raise value_error

unfoldable pub frame : Bytes → Try Bytes
unfolding to_byte
frame message = do
  let crc = crc16 message 0xffff
  low ← to_byte (crc % 256)
  high ← to_byte (crc / 256)
  encoded ← encode (message ++ (low ∷ high ∷ []))
  ok (0 ∷ (encoded ++ (0 ∷ [])))

-- data[-2] | data[-1] << 8 is the value of the last two bytes.
unfoldable pub unframe : Bytes → Try Bytes
unframe raw = do
  bytes ← decode raw
  let n = length bytes
  require (not (ltb n 3)) corrupt_frame
  let body = take (n - 2) bytes
  let got = le_value (drop (n - 2) bytes)
  require (crc16 body 0xffff == got) corrupt_frame
  ok body

unfoldable pub frame_max : ℕ → ℕ
frame_max message_len = let n = message_len + 2 in n + (n + 253) / 254 + 1 + 1
