-- ===== src/Cobs/Crc.antt =====
-- The CRC tells apart any two messages that differ in one byte.
use oep_client_python.Prelude.{
  ℕ, zero, suc, ◌+◌, ◌*◌, ◌/◌, ◌%◌, ◌<◌, ◌≡◌, ◌≢◌, refl, sym, ap, ◌∙◌, true, [], ◌∷◌, ◌++◌, arith,
  ◌==◌, All, bit_xor, if◌then◌else◌,
}
use oep_client_python.Bytes.{Bytes, IsByte}
use oep_client_python.Bits.{agree_below, agree_below→eq}
use oep_client_python.Bits.Xor.{bit_xor_injective, bit_xor_injective_left, bit_xor_lt}
use oep_client_python.Cobs.{crc_bit, crc_bits, crc16}

-- The register before a round, from the register after it.
abbrev crc_bit_back : ℕ → ℕ
crc_bit_back crc = if crc % 2 == 0 then crc / 2 else bit_xor crc 0x1021 / 2 + 32768

crc_bit_table : agree_below (λ c. crc_bit_back (crc_bit c)) (λ c. c) 65536 ≡ true
unfolding agree_below crc_bit
crc_bit_table = refl

crc_bit_undo : (c : ℕ) → c < 65536 → crc_bit_back (crc_bit c) ≡ c
crc_bit_undo c h = agree_below→eq (λ n. crc_bit_back (crc_bit n)) (λ n. n) 65536 c crc_bit_table h

crc_bit-lt : (c : ℕ) → crc_bit c < 65536
unfolding crc_bit
crc_bit-lt c = ground arith

crc_bits-lt : (rounds c : ℕ) → c < 65536 → crc_bits rounds c < 65536
unfolding crc_bits
crc_bits-lt zero c h = h
crc_bits-lt (suc rounds) c h = crc_bits-lt rounds (crc_bit c) (crc_bit-lt c)

crc_bits_injective :
    (rounds c d : ℕ) → c < 65536 → d < 65536 → crc_bits rounds c ≡ crc_bits rounds d → c ≡ d
unfolding crc_bits
crc_bits_injective zero c d hc hd e = e
crc_bits_injective (suc rounds) c d hc hd e =
    let bits = crc_bits_injective rounds (crc_bit c) (crc_bit d) (crc_bit-lt c) (crc_bit-lt d) e in
    sym (crc_bit_undo c hc) ∙ ap crc_bit_back bits ∙ crc_bit_undo d hd

byte_in : (c b : ℕ) → c < 65536 → IsByte b → bit_xor c (b * 256) < 65536
byte_in c b hc hb = bit_xor_lt 16 c (b * 256) hc (omega arith)

-- The CRC of any bytes is a number of 16 bits, so its two bytes never overflow.
pub crc16-lt : (bytes : Bytes) (crc : ℕ) → crc < 65536 → All IsByte bytes → crc16 bytes crc < 65536
unfolding crc16
crc16-lt [] crc h hb = h
crc16-lt (b ∷ bs) crc h (hb, hbs) = crc16-lt bs _ (crc_bits-lt 8 _ (byte_in crc b h hb)) hbs

crc16_injective :
    (bytes : Bytes) (c d : ℕ)
    → c < 65536
    → d < 65536
    → All IsByte bytes
    → crc16 bytes c ≡ crc16 bytes d
    → c ≡ d
unfolding crc16
crc16_injective [] c d hc hd hb e = e
crc16_injective (b ∷ bs) c d hc hd (hb, hbs) e =
    let ic = byte_in c b hc hb in
    let id_ = byte_in d b hd hb in
    let later = crc16_injective bs _ _ (crc_bits-lt 8 _ ic) (crc_bits-lt 8 _ id_) hbs e in
    bit_xor_injective_left (b * 256) c d (crc_bits_injective 8 _ _ ic id_ later)

-- Two messages that differ in one byte have different CRCs, whatever stands before and behind that byte: an
-- error confined to one byte is always seen.
pub crc16_detects :
    (front back : Bytes) (a b crc : ℕ)
    → crc < 65536
    → All IsByte front
    → All IsByte back
    → IsByte a
    → IsByte b
    → a ≢ b
    → crc16 (front ++ (a ∷ back)) crc ≢ crc16 (front ++ (b ∷ back)) crc
unfolding crc16
crc16_detects [] back a b crc h hf hb ha hb' differ e =
    let ia = byte_in crc a h ha in
    let ib = byte_in crc b h hb' in
    let later = crc16_injective back _ _ (crc_bits-lt 8 _ ia) (crc_bits-lt 8 _ ib) hb e in
    let bytes = bit_xor_injective crc (a * 256) (b * 256) (crc_bits_injective 8 _ _ ia ib later) in
    differ (omega (arith, bytes))
crc16_detects (x ∷ front) back a b crc h (hx, hf) hb ha hb' differ e =
    crc16_detects front back a b _ (crc_bits-lt 8 _ (byte_in crc x h hx)) hf hb ha hb' differ e
