-- ===== src/Message/Examples.antt =====
-- Runs of the message functions on concrete bytes, and their theorems at concrete inputs.
use oep_client_python.Prelude.{
  ℕ, ◌+◌, ◌%◌, ◌^◌, ◌≡◌, refl, true, some, List, [], ◌∷◌, ◌++◌, arith, All, pos,
}
use oep_client_python.Try.{ok, raise, short_payload, protocol_error, ◌>>=◌}
use oep_client_python.Bytes.{Bytes}
use oep_client_python.Message.Header.{
  Request, Result, pack_request, unpack_request, pack_result, unpack_result,
}
use oep_client_python.Message.Header.RoundTrip.{
  unpack_request-pack_request, unpack_result-pack_result,
}
use oep_client_python.Message.Tlv.{Tlv, IsTlv, tlv, split_tlvs, named_extensions, lookup}
use oep_client_python.Message.Tlv.RoundTrip.{tlv_bytes, split_tlvs-tlv, split_tlvs_sound}
use oep_client_python.Message.Tlv.Extensions.{first_extension, lookup-named_extensions}
use oep_client_python.Message.Serial.{serial_diff, serials_lost, serial_page_start}
use oep_client_python.Message.Serial.Distance.{serials_lost_exact}

abbrev keepalive : Request
keepalive = record { corr = 0x1234; fn = 0; op = 0x12; payload = []; session = 0xdeadbeef }

abbrev keepalive_bytes : Bytes
keepalive_bytes = 1 ∷ 0x34 ∷ 0x12 ∷ 0 ∷ 0 ∷ 0x12 ∷ 0xef ∷ 0xbe ∷ 0xad ∷ 0xde ∷ []

pack_keepalive : pack_request keepalive ≡ ok keepalive_bytes
unfolding pack_request
pack_keepalive = refl

unpack_keepalive : unpack_request keepalive_bytes ≡ ok keepalive
unfolding unpack_request
unpack_keepalive = refl

unpack_result_short : unpack_result (2 ∷ 1 ∷ 0 ∷ 1 ∷ []) ≡ raise short_payload
unfolding unpack_result
unpack_result_short = refl

unpack_request-pack_request_example : (pack_request keepalive >>= unpack_request) ≡ ok keepalive
unpack_request-pack_request_example = unpack_request-pack_request keepalive (omega arith)

abbrev locked_result : Result
locked_result = record { corr = 7; resolution = 0; detail = 8; payload = 0xe8 ∷ 3 ∷ 0 ∷ 0 ∷ [] }

unpack_result-pack_result_example : (pack_result locked_result >>= unpack_result) ≡ ok locked_result
unpack_result-pack_result_example = unpack_result-pack_result locked_result (omega arith)

-- An owner TLV and an unknown one.
abbrev two_tlvs : List Tlv
two_tlvs = (1, b'm' ∷ b'e' ∷ []) ∷ (0x85, []) ∷ []

abbrev two_tlvs_bytes : Bytes
two_tlvs_bytes = 1 ∷ 2 ∷ 0 ∷ b'm' ∷ b'e' ∷ 0x85 ∷ 0 ∷ 0 ∷ []

split_two : split_tlvs two_tlvs_bytes ≡ ok two_tlvs
unfolding split_tlvs
split_two = refl

split_cut : split_tlvs (1 ∷ 2 ∷ 0 ∷ b'm' ∷ []) ≡ raise short_payload
unfolding split_tlvs
split_cut = refl

split_number_zero : split_tlvs (0x80 ∷ 0 ∷ 0 ∷ []) ≡ raise protocol_error
unfolding split_tlvs
split_number_zero = refl

split_tlvs-tlv_example :
    (tlv 5 (9 ∷ []) true >>= λ raw. split_tlvs (tlv_bytes two_tlvs ++ (raw ++ tlv_bytes two_tlvs)))
    ≡ ok (two_tlvs ++ ((0x85, 9 ∷ []) ∷ two_tlvs))
split_tlvs-tlv_example =
    split_tlvs-tlv two_tlvs two_tlvs 5 (9 ∷ []) true (omega arith) (omega arith) (omega arith)

split_tlvs_sound_example : (two_tlvs_bytes ≡ tlv_bytes two_tlvs) × All IsTlv two_tlvs
split_tlvs_sound_example = split_tlvs_sound two_tlvs_bytes two_tlvs (omega arith) split_two

-- The extension "a" twice, and a broken one before it.
abbrev extensions : List Tlv
extensions = (0x7f, 9 ∷ b'a' ∷ []) ∷ (0xff, 1 ∷ b'a' ∷ 5 ∷ []) ∷ (0x7f, 1 ∷ b'a' ∷ 6 ∷ []) ∷ []

first_kept : named_extensions extensions ≡ (b'a' ∷ [], 5 ∷ []) ∷ []
unfolding named_extensions
first_kept = refl

lookup-named_extensions_example :
    lookup (b'a' ∷ []) (named_extensions extensions) ≡ first_extension (b'a' ∷ []) extensions
lookup-named_extensions_example = lookup-named_extensions (b'a' ∷ []) extensions

serial_diff_wraps : serial_diff 2 0xfffffffe 32 ≡ pos 4
unfolding serial_diff
serial_diff_wraps = refl

serials_lost_exact_example :
    serials_lost (some (65534 % 2 ^ 16)) ((65534 + (3 + 1)) % 2 ^ 16) true 16 ≡ some 3
serials_lost_exact_example = serials_lost_exact 65534 3 14 (omega arith)

lost_three : serials_lost (some 65534) 2 true 16 ≡ some 3
unfolding serials_lost
lost_three = refl

abbrev kept_serials : List ℕ
kept_serials = 7 ∷ 8 ∷ 9 ∷ []

page_in_the_middle : serial_page_start kept_serials 10 8 ≡ 1
unfolding serial_page_start
page_in_the_middle = refl
