-- ===== src/Catalog/Examples.antt =====
-- The theorems on src/oep_client/catalog.py at concrete inputs, and tests.
use mathlib.Core.Option.{map as map_option}
use oep_client_python.Prelude.{
  ℕ, ◌≡◌, ◌⊎◌, refl, true, false, none, some, List, [], ◌∷◌, ◌++◌, map, arith, ltb, if◌then◌else◌,
  All,
}
use oep_client_python.Try.{ok, raise, invalid_ops, index_error, ◌>>=◌}
use oep_client_python.Bytes.{Bytes, le_value}
use oep_client_python.Message.Tlv.{Tlv, IsTlv, split_tlvs}
use oep_client_python.Message.Tlv.RoundTrip.{tlv_bytes}
use oep_client_python.Catalog.SortedSet.{sorted_set}
use oep_client_python.Catalog.Bitmap.{pack_ops, unpack_ops}
use oep_client_python.Catalog.Bitmap.RoundTrip.{unpack_ops-pack_ops}
use oep_client_python.Catalog.Describe.{Description, first_value, first_fixed, decode_description}
use oep_client_python.Catalog.Describe.First.{
  declared_ops, declares_broken_ops, decode_description_first,
}
use oep_client_python.Catalog.Describe.Errors.{has_short_group, decode_description_cases}
use oep_client_python.Catalog.Entries.{ListEntry, pack_list_result, unpack_list_result}
use oep_client_python.Catalog.Entries.RoundTrip.{
  IsEntry, KeepsAscii, unpack_list_result-pack_list_result,
}

abbrev some_ops : List ℕ
some_ops = 0x12 ∷ 0x10 ∷ 0x2f ∷ 0x12 ∷ []

unpack_ops-pack_ops_example : (pack_ops some_ops >>= unpack_ops) ≡ ok (sorted_set some_ops)
unpack_ops-pack_ops_example = unpack_ops-pack_ops some_ops (λ e. cc) ground arith

pack_some_ops : pack_ops some_ops ≡ ok (0x10 ∷ 0x05 ∷ 0x00 ∷ 0x00 ∷ 0x80 ∷ [])
unfolding pack_ops
pack_some_ops = refl

sorted_some_ops : sorted_set some_ops ≡ 0x10 ∷ 0x12 ∷ 0x2f ∷ []
unfolding sorted_set
sorted_some_ops = refl

-- A bitmap that passes operation 0xff.
unpack_past : unpack_ops (0xf8 ∷ 0 ∷ 1 ∷ []) ≡ raise invalid_ops
unfolding unpack_ops
unpack_past = refl

abbrev some_channels : List ℕ
some_channels = 300 ∷ 2 ∷ 7 ∷ 2 ∷ []

-- A describe with max_clock_hz twice, a broken max_length, features with bit 7 and two ops.
abbrev some_tlvs : List Tlv
some_tlvs =
    (0x02, 0x40 ∷ 0x42 ∷ 0x0f ∷ 0x00 ∷ [])
    ∷ (0x02, 1 ∷ 0 ∷ 0 ∷ 0 ∷ [])
    ∷ (0x03, 1 ∷ [])
    ∷ (0x85, 1 ∷ 0 ∷ 0 ∷ 0 ∷ [])
    ∷ (0x07, 0x10 ∷ 0x03 ∷ [])
    ∷ (0x07, 0x20 ∷ 0x03 ∷ [])
    ∷ []

abbrev described : Description
described = record {
  roles = [];
  groups = [];
  max_clock_hz = some 1000000;
  min_clock_hz = none;
  max_length = none;
  features = none;
  ops = some (0x10 ∷ 0x11 ∷ []);
  ops_invalid = false;
  specific = [];
  unknown_critical = [];
  broken = 0x03 ∷ [];
}

some_tlvs-split_tlvs : split_tlvs (tlv_bytes some_tlvs) ≡ ok some_tlvs
unfolding split_tlvs
some_tlvs-split_tlvs = refl

described-decode_description : decode_description (tlv_bytes some_tlvs) ≡ ok described
unfolding decode_description
described-decode_description = refl

decode_description_first_example :
    (described.max_clock_hz ≡ map_option le_value (first_fixed some_tlvs 0x02 4))
    × (described.max_length ≡ map_option le_value (first_fixed some_tlvs 0x03 2))
    × (described.min_clock_hz ≡ map_option le_value (first_fixed some_tlvs 0x04 4))
    × (described.features ≡ map_option le_value (first_fixed some_tlvs 0x05 4))
    × (described.ops ≡ declared_ops (first_value some_tlvs 0x07))
    × (described.ops_invalid ≡ declares_broken_ops (first_value some_tlvs 0x07))
decode_description_first_example =
    decode_description_first (tlv_bytes some_tlvs) some_tlvs described some_tlvs-split_tlvs
      described-decode_description

decode_description_cases_example :
    ((has_short_group some_tlvs ≡ false)
      × (d : Description) × (decode_description (tlv_bytes some_tlvs) ≡ ok d))
    ⊎ ((has_short_group some_tlvs ≡ true)
        × (decode_description (tlv_bytes some_tlvs) ≡ raise index_error))
decode_description_cases_example =
    decode_description_cases (tlv_bytes some_tlvs) some_tlvs some_tlvs-split_tlvs

-- A channel group of one byte is not noted as broken: decoding raises.
decode_short_group : decode_description (0x06 ∷ 1 ∷ 0 ∷ 1 ∷ []) ≡ raise index_error
unfolding decode_description
decode_short_group = refl

-- A decoder that is right on ASCII and shows U+FFFD for any other byte.
ascii_only : Bytes → List ℕ
ascii_only raw = map (λ b. if ltb b 0x80 then b else 0xfffd) raw

ascii_only-KeepsAscii : KeepsAscii ascii_only
unfolding ascii_only
ascii_only-KeepsAscii [] h = refl
ascii_only-KeepsAscii (b ∷ raw) h = ground (arith, h.0, ascii_only-KeepsAscii raw h.1)

abbrev some_entries : List ListEntry
some_entries =
    record { fn = 1; instance_ = 0; revision = 1; name = b'o' ∷ b'e' ∷ b'p' ∷ b'.' ∷ b'u' ∷ [] }
    ∷ record { fn = 258; instance_ = 1; revision = 2; name = b'x' ∷ b'.' ∷ b'y' ∷ [] }
    ∷ []

abbrev more_tlvs : List Tlv
more_tlvs = (0x10, 1 ∷ 2 ∷ []) ∷ []

some_entries-IsEntry : All IsEntry some_entries
some_entries-IsEntry = ground arith

more_tlvs-IsTlv : All IsTlv more_tlvs
more_tlvs-IsTlv = ground arith

unpack_list_result-pack_list_result_example :
    (pack_list_result 9 some_entries >>= λ raw.
    unpack_list_result ascii_only (raw ++ tlv_bytes more_tlvs))
    ≡ ok (9, some_entries)
unpack_list_result-pack_list_result_example =
    unpack_list_result-pack_list_result ascii_only ascii_only-KeepsAscii 9 some_entries more_tlvs
      (omega arith) (omega arith) some_entries-IsEntry more_tlvs-IsTlv
