-- ===== src/HostSession/Refusal/Unsupported.antt =====
-- src/oep_client/host.py: the readers of `Unsupported`.
use oep_client_python.Prelude.{
  ℕ, ◌==◌, Option, none, some, List, [], ◌∷◌, length, drop, get_or, if◌then◌else◌,
}
use oep_client_python.Bytes.{Bytes}
use oep_client_python.Registry.{tag_supported, tag_fixed}
use oep_client_python.Message.Tlv.{Tlv, split_tlvs, get}
use oep_client_python.Message.Header.{Result}
use oep_client_python.HostSession.Refusal.{rows_or_none, number_in}

unfoldable pub tag : Result → Option ℕ
tag r = elim r.payload [ [] ↦ none | b ∷ bs ↦ if b == tag_fixed then none else some b ]

unfoldable pub tlvs : Result → List Tlv
unfolding split_tlvs
tlvs r = rows_or_none (split_tlvs (drop 1 r.payload))

unfoldable pub item : Result → Option ℕ
unfolding tlvs get
item r = number_in 1 (get (tlvs r) 0x03)

-- The lowest and the highest revision, of a refusal of the fixed part
abbrev pub range_in : Option Bytes → Option (ℕ × ℕ)
range_in none = none
range_in (some value) =
    if length value == 2 then some (get_or value 0 0, get_or value 1 0) else none

unfoldable pub supported : Result → Option (ℕ × ℕ)
unfolding tag tlvs get
supported r = elim (tag r) [ some t ↦ none | none ↦ range_in (get (tlvs r) tag_supported) ]
