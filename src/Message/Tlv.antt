-- ===== src/Message/Tlv.antt =====
-- src/oep_client/message.py: TLVs `tag(u8) len(u16) value`, tails of them, and named extensions.
pub mod RoundTrip
pub mod Extensions
use oep_client_python.Prelude.{
  ℕ, zero, suc, ◌+◌, ◌<◌, ◌≤◌, Bool, true, false, ◌&&◌, ◌||◌, Option, none, some, List, [], ◌∷◌,
  ◌++◌, ◌≢◌, not, ltb, leb, ◌==◌, length, take, drop, All, bit_and, bit_or, if◌then◌else◌,
}
use oep_client_python.Try.{
  Try, ok, raise, value_error, short_payload, protocol_error, loop_bound, ◌>>=◌,
}
use oep_client_python.Bytes.{Bytes, IsByte, field, slice, pack_field}
use oep_client_python.Registry.{tlv_header, tag_critical, tag_named_extension, tag_fixed}

-- A TLV as `split_tlvs` gives it.
abbrev pub Tlv : Type 0
Tlv = ℕ × Bytes

unfoldable pub tlv : ℕ → Bytes → Bool → Try Bytes
tlv tag value critical =
    if ltb 0xffff (length value)
    then raise value_error
    else if bit_and tag 0x7f == tag_fixed
    then raise value_error
    else do
      number ← pack_field 1 (bit_or tag (if critical then tag_critical else 0))
      size ← pack_field 2 (length value)
      ok (number ++ (size ++ value))

-- One round of the loop of `split_tlvs`: the list is data[pos:], the result the TLV and what follows.
unfoldable pub split_one : Bytes → Try (Tlv × Bytes)
split_one rest =
    if ltb (length rest) tlv_header
    then raise short_payload
    else (let tag = field rest 0 1 in
        let n = field rest 1 2 in
        let body = drop tlv_header rest in
        if ltb (length body) n
        then raise short_payload
        else if bit_and tag 0x7f == tag_fixed
        then raise protocol_error
        else ok ((tag, take n body), drop n body))

-- The loop; what it has put into `out` is what stands before the result.
unfoldable pub split_loop : ℕ → Bytes → Try (List Tlv)
split_loop fuel [] = ok []
split_loop zero (b ∷ bs) = raise loop_bound
split_loop (suc fuel) (b ∷ bs) = do
  (t, rest) ← split_one (b ∷ bs)
  out ← split_loop fuel rest
  ok (t ∷ out)

-- Each TLV takes three bytes at least, so `length bytes` rounds are enough.
unfoldable pub split_tlvs : Bytes → Try (List Tlv)
unfolding split_loop split_one
split_tlvs bytes = split_loop (length bytes) bytes

-- Tail.get: the first TLV of a tag.
unfoldable pub get : List Tlv → ℕ → Option Bytes
get [] tag = none
get ((t, v) ∷ tlvs) tag = if t == tag then some v else get tlvs tag

-- bytes.decode("ascii") succeeds.
unfoldable pub is_ascii : Bytes → Bool
is_ascii [] = true
is_ascii (b ∷ bs) = ltb b 128 && is_ascii bs

abbrev pub bytes_eq : Bytes → Bytes → Bool
bytes_eq [] [] = true
bytes_eq [] (b ∷ bs) = false
bytes_eq (a ∷ as_) [] = false
bytes_eq (a ∷ as_) (b ∷ bs) = a == b && bytes_eq as_ bs

-- The dict's `get`, and its `setdefault`: a name that is there keeps its value. A name is kept as its bytes.
unfoldable pub lookup : Bytes → List (Bytes × Bytes) → Option Bytes
lookup name [] = none
lookup name ((n, v) ∷ out) = if bytes_eq n name then some v else lookup name out

unfoldable pub setdefault : Bytes → Bytes → List (Bytes × Bytes) → List (Bytes × Bytes)
setdefault name value [] = (name, value) ∷ []
setdefault name value ((n, v) ∷ out) =
    if bytes_eq n name then (n, v) ∷ out else (n, v) ∷ setdefault name value out

-- The name and the data of a named extension that can be read.
unfoldable pub read_extension : Tlv → Option (Bytes × Bytes)
unfolding is_ascii
read_extension (tag, value) =
    let size = field value 0 1 in
    let name = slice value 1 size in
    if not (bit_and tag 0x7f == tag_named_extension)
      || leb (length value) 0
      || ltb (length value) (1 + size)
    then none
    else if is_ascii name
    then some (name, drop (1 + size) value)
    else none

unfoldable pub extensions_loop : List Tlv → List (Bytes × Bytes) → List (Bytes × Bytes)
extensions_loop [] out = out
extensions_loop (t ∷ tlvs) out =
    extensions_loop tlvs
      (elim (read_extension t) [ none ↦ out | some (name, data_) ↦ setdefault name data_ out ])

unfoldable pub named_extensions : List Tlv → List (Bytes × Bytes)
unfolding extensions_loop setdefault read_extension
named_extensions tlvs = extensions_loop tlvs []

-- A TLV that has an encoding: a tag of one byte that is not numbered 0, a value whose length fits.
pub record IsTlv (t : Tlv) : Type 0 where
  pub tag : t.0 < 256
  pub number : bit_and t.0 0x7f ≢ 0
  pub size : length t.1 ≤ 0xffff
  pub value : All IsByte t.1
