-- ===== src/Catalog/Writers.antt =====
-- src/oep_client/catalog.py: the other TLVs of a describe, written, and a channel group read back.
use oep_client_python.Prelude.{
  ℕ, ◌/◌, ◌%◌, ◌<◌, ◌≡◌, refl, false, List, [], ◌∷◌, ◌++◌, arith, ltb, length, All, if◌then◌else◌,
}
use oep_client_python.Try.{Try, ok, raise, value_error, ◌>>=◌}
use oep_client_python.Bytes.{Bytes, pack_field}
use oep_client_python.Registry.{tag_channel_group}
use oep_client_python.Message.Tlv.{tlv, is_ascii}
use oep_client_python.Catalog.Describe.{unpack_pins, unpack_channel_group}

-- b"".join(struct.pack("<BH", r, c) for r, c in pins)
unfoldable pub pack_pins : List (ℕ × ℕ) → Try Bytes
pack_pins [] = ok []
pack_pins ((role, channel) ∷ pins) = do
  r ← pack_field 1 role
  c ← pack_field 2 channel
  more ← pack_pins pins
  ok (r ++ (c ++ more))

-- The value of `channel_group`; a number that is no byte is ValueError.
unfoldable pub group_value : ℕ → List (ℕ × ℕ) → Try Bytes
unfolding pack_pins
group_value group pins =
    if ltb 0xff group
    then raise value_error
    else if ltb 0xff (length pins)
    then raise value_error
    else (pack_pins pins >>= λ raw. ok (group ∷ length pins ∷ raw))

unfoldable pub channel_group : ℕ → List (ℕ × ℕ) → Try Bytes
unfolding group_value tlv
channel_group group pins = do value ← group_value group pins; tlv tag_channel_group value false

-- `u8`, `u16` and `u32`, of 1, 2 and 4 bytes
unfoldable pub number_tlv : ℕ → ℕ → ℕ → Try Bytes
unfolding tlv
number_tlv n tag v = do value ← pack_field n v; tlv tag value false

unfoldable pub text : ℕ → List ℕ → Try Bytes
unfolding tlv is_ascii
text tag s = if is_ascii s then tlv tag s false else raise value_error

-- A pin that has an encoding.
abbrev pub IsPin : ℕ × ℕ → Type 0
IsPin (role, channel) = (role < 0x100) × (channel < 0x10000)

pack_pins-unpack_pins :
    (pins : List (ℕ × ℕ))
    → All IsPin pins
    → (raw : Bytes) × (pack_pins pins ≡ ok raw) × (unpack_pins (length pins) raw ≡ ok pins)
unfolding pack_pins unpack_pins
pack_pins-unpack_pins [] h = ([], refl, refl)
pack_pins-unpack_pins ((role, channel) ∷ pins) h =
    let (raw, packed, read) = pack_pins-unpack_pins pins h.1 in
    (
      role % 256 ∷ channel % 256 ∷ channel / 256 % 256 ∷ raw,
      ground (arith, h.0.0, h.0.1, packed),
      ground (arith, h.0.0, h.0.1, read),
    )

-- A channel group of at most 255 pins, each of a role of 8 bits and a channel of 16, is read back as it was written.
pub unpack_channel_group-group_value :
    (group : ℕ) (pins : List (ℕ × ℕ))
    → group < 0x100
    → length pins < 0x100
    → All IsPin pins
    → (group_value group pins >>= unpack_channel_group) ≡ ok (group, pins)
unfolding group_value unpack_channel_group
unpack_channel_group-group_value group pins hg hn h =
    let (raw, packed, read) = pack_pins-unpack_pins pins h in ground (arith, hg, hn, packed, read)
