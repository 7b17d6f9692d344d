-- ===== src/Catalog/Bitmap.antt =====
-- src/oep_client/catalog.py: sets of channels and of operations as a base and a bitmap. Channels
-- and operations are natural numbers.
pub mod Members
pub mod RoundTrip
use oep_client_python.Prelude.{
  ℕ, zero, suc, ◌+◌, ◌-◌, ◌*◌, ◌/◌, ◌%◌, ◌^◌, Bool, true, false, ◌||◌, List, [], ◌∷◌, ◌++◌, ltb,
  ◌==◌, length, get_or, set, replicate, bit_or, if◌then◌else◌,
}
use oep_client_python.Try.{Try, ok, raise, value_error, invalid_ops, ◌>>=◌}
use oep_client_python.Bytes.{Bytes, pack_field}
use oep_client_python.Registry.{tag_ops, tag_role_channels}
use oep_client_python.Message.Tlv.{tlv}
use oep_client_python.Catalog.SortedSet.{sorted_set, last}

-- bits[(x - base) // 8] |= 1 << ((x - base) % 8), of an index that the bitmap has
unfoldable pub put_bit : ℕ → ℕ → Bytes → Bytes
put_bit base x bits =
    let i = (x - base) / 8 in set bits i (bit_or (get_or bits i 0) (2 ^ ((x - base) % 8)))

unfoldable pub put_bits : ℕ → List ℕ → Bytes → Bytes
put_bits base [] bits = bits
put_bits base (x ∷ xs) bits = put_bits base xs (put_bit base x bits)

-- The bitmap of a set whose greatest member is given.
unfoldable pub bitmap : ℕ → ℕ → List ℕ → Bytes
unfolding put_bits put_bit
bitmap base greatest xs = put_bits base xs (replicate ((greatest - base) / 8 + 1) 0)

-- The channels of one byte: `b` goes from its value on through n values, and `byte >> b & 1` is the test.
unfoldable pub byte_channels : ℕ → ℕ → ℕ → ℕ → List ℕ
byte_channels first byte zero b = []
byte_channels first byte (suc n) b =
    let rest = byte_channels first byte n (suc b) in
    if byte / 2 ^ b % 2 == 1 then (first + b) ∷ rest else rest

unfoldable pub bitmap_to_channels : ℕ → Bytes → List ℕ
unfolding byte_channels
bitmap_to_channels base [] = []
bitmap_to_channels base (byte ∷ bits) =
    byte_channels base byte 8 0 ++ bitmap_to_channels (base + 8) bits

-- The part of `channels_to_bitmap` after the sort.
abbrev pub sorted_bitmap : List ℕ → ℕ × Bytes
sorted_bitmap [] = (0, [])
sorted_bitmap (x ∷ xs) = (x, bitmap x (last x xs) (x ∷ xs))

unfoldable pub channels_to_bitmap : List ℕ → ℕ × Bytes
unfolding bitmap sorted_set
channels_to_bitmap channels = sorted_bitmap (sorted_set channels)

unfoldable pub role_channels : ℕ → List ℕ → Try Bytes
unfolding channels_to_bitmap tlv
role_channels role channels =
    let (base, bits) = channels_to_bitmap channels in
    do r ← pack_field 1 role; b ← pack_field 2 base; tlv tag_role_channels (r ++ (b ++ bits)) false

-- The part of `pack_ops` after the sort. `ops[0] & ~7` is the multiple of 8.
abbrev pub pack_sorted : List ℕ → Try Bytes
pack_sorted [] = raise value_error
pack_sorted (op ∷ ops) =
    if ltb 0xff (last op ops)
    then raise value_error
    else (let base = op / 8 * 8 in ok (base ∷ bitmap base (last op ops) (op ∷ ops)))

unfoldable pub pack_ops : List ℕ → Try Bytes
unfolding bitmap sorted_set
pack_ops ops = pack_sorted (sorted_set ops)

unfoldable pub ops_tlv : List ℕ → Try Bytes
unfolding pack_ops tlv
ops_tlv ops = do value ← pack_ops ops; tlv tag_ops value false

-- Whether a value breaks the encoding of operations; the text that says why is left out.
unfoldable pub check_ops : Bytes → Bool
check_ops [] = true
check_ops (base ∷ bits) = ltb (length bits) 1 || ltb 256 (base + 8 * length bits)

-- The set, as the list of its members.
unfoldable pub unpack_ops : Bytes → Try (List ℕ)
unfolding check_ops bitmap_to_channels
unpack_ops [] = raise invalid_ops
unpack_ops (base ∷ bits) =
    if check_ops (base ∷ bits) then raise invalid_ops else ok (bitmap_to_channels base bits)
