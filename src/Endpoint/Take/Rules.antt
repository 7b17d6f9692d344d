-- ===== src/Endpoint/Take/Rules.antt =====
-- The rules of a request's tail, which speak of its TLVs.
use oep_client_python.Prelude.{
  ℕ, Bool, false, not, ◌&&◌, ◌||◌, Option, none, some, List, [], ◌∷◌, ◌==◌, bit_and, if◌then◌else◌,
}
use oep_client_python.Bytes.{Bytes}
use oep_client_python.Message.Tlv.{Tlv}
use oep_client_python.Catalog.SortedSet.{has}
use oep_client_python.Endpoint.Take.{is_critical, is_bad_extension}

-- Whether one of the TLVs has a number.
abbrev pub has_number : ℕ → List Tlv → Bool
has_number n [] = false
has_number n ((tag, value) ∷ tlvs) = bit_and tag 0x7f == n || has_number n tlvs

-- The value of the first TLV of a number.
abbrev pub first_of : ℕ → List Tlv → Option Bytes
first_of n [] = none
first_of n ((tag, value) ∷ tlvs) = if bit_and tag 0x7f == n then some value else first_of n tlvs

module _ (known repeats : List ℕ) where
  -- A number that may stand once.
  abbrev pub is_once : ℕ → Bool
  is_once n = has n known && not (has n repeats)

  -- The TLVs of known numbers.
  abbrev pub known_of : List Tlv → List Tlv
  known_of [] = []
  known_of ((tag, value) ∷ tlvs) =
      let rest = known_of tlvs in if has (bit_and tag 0x7f) known then (tag, value) ∷ rest else rest

  -- A named extension whose name passes its value, or a number twice that may stand once.
  abbrev pub breaks_rules : List Tlv → Bool
  breaks_rules [] = false
  breaks_rules ((tag, value) ∷ tlvs) =
      is_bad_extension (tag, value)
      || is_once (bit_and tag 0x7f) && has_number (bit_and tag 0x7f) tlvs
      || breaks_rules tlvs

  -- The first critical tag of an unknown number.
  abbrev pub unknown_of : List Tlv → Option ℕ
  unknown_of [] = none
  unknown_of ((tag, value) ∷ tlvs) =
      let rest = unknown_of tlvs in
      if is_critical tag && not (has (bit_and tag 0x7f) known) then some tag else rest
