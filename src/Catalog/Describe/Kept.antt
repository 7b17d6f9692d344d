-- ===== src/Catalog/Describe/Kept.antt =====
-- What reading one TLV of a describe changes: the field of its tag, and no other.
use oep_client_python.Prelude.{
  ℕ, ◌≡◌, ◌∙◌, inl, inr, Bool, true, false, length, Option, none, some, List, arith, ◌==◌,
  if◌then◌else◌,
}
use oep_client_python.Try.{Error, ok, raise, Try-cases}
use oep_client_python.Bytes.{Bytes, le_value}
use oep_client_python.Catalog.Bitmap.{check_ops, unpack_ops}
use oep_client_python.Catalog.Describe.{
  Description, unpack_field, read_value, read_rest, read_or_broken, set_ops,
}

-- Reading the TLV (t, value) takes `d` to `d'`.
abbrev pub Reads : ℕ → Bytes → Description → Description → Type 0
Reads t value d d' = read_or_broken t value d (read_value t value d) ≡ ok d'

-- What reading leaves alone: the fields of the other tags.
pub record IsKept (t : ℕ) (d d' : Description) : Type 0 where
  pub max_clock_hz : (t == 0x02) ≡ false → d'.max_clock_hz ≡ d.max_clock_hz
  pub max_length : (t == 0x03) ≡ false → d'.max_length ≡ d.max_length
  pub min_clock_hz : (t == 0x04) ≡ false → d'.min_clock_hz ≡ d.min_clock_hz
  pub features : (t == 0x05) ≡ false → d'.features ≡ d.features
  pub ops : (t == 0x07) ≡ false → d'.ops ≡ d.ops
  pub ops_invalid : (t == 0x07) ≡ false → d'.ops_invalid ≡ d.ops_invalid

read_rest-IsKept :
    (t : ℕ) (value : Bytes) (d d' : Description) → read_rest t value d ≡ ok d' → IsKept t d d'
unfolding read_rest set_ops
read_rest-IsKept t value d d' e = record {
  max_clock_hz = λ h. ground arith;
  max_length = λ h. ground arith;
  min_clock_hz = λ h. ground arith;
  features = λ h. ground arith;
  ops = λ h. ground arith;
  ops_invalid = λ h. ground arith;
}

read_value-IsKept :
    (t : ℕ) (value : Bytes) (d d' : Description) → read_value t value d ≡ ok d' → IsKept t d d'
unfolding read_value
read_value-IsKept t value d d' e = record {
  max_clock_hz = λ h. ground arith;
  max_length = λ h. ground arith;
  min_clock_hz = λ h. ground arith;
  features = λ h. ground arith;
  ops = λ h. ground arith;
  ops_invalid = λ h. ground arith;
}

broken-IsKept :
    (t : ℕ) (value : Bytes) (d d' : Description) (er : Error)
    → read_or_broken t value d (raise er) ≡ ok d'
    → IsKept t d d'
unfolding read_or_broken
broken-IsKept t value d d' er e = record {
  max_clock_hz = λ h. ground arith;
  max_length = λ h. ground arith;
  min_clock_hz = λ h. ground arith;
  features = λ h. ground arith;
  ops = λ h. ground arith;
  ops_invalid = λ h. ground arith;
}

pub Reads-IsKept : (t : ℕ) (value : Bytes) (d d' : Description) → Reads t value d d' → IsKept t d d'
unfolding read_or_broken
Reads-IsKept t value d d' e = elim (Try-cases (read_value t value d)) [
  | inl (d1, one) ↦
      let a = read_value-IsKept t value d d1 one in
      let b = read_rest-IsKept t value d1 d' (rw one at e) in
      record {
        max_clock_hz = λ h. b.max_clock_hz h ∙ a.max_clock_hz h;
        max_length = λ h. b.max_length h ∙ a.max_length h;
        min_clock_hz = λ h. b.min_clock_hz h ∙ a.min_clock_hz h;
        features = λ h. b.features h ∙ a.features h;
        ops = λ h. b.ops h ∙ a.ops h;
        ops_invalid = λ h. b.ops_invalid h ∙ a.ops_invalid h;
      }
  | inr (er, one) ↦ broken-IsKept t value d d' er (rw one at e)
]

-- What the value of a field of n bytes says.
abbrev pub number : ℕ → Bytes → Option ℕ
number n value = if length value == n then some (le_value value) else none

pub Reads-max_clock_hz :
    (value : Bytes) (d d' : Description)
    → d.max_clock_hz ≡ none
    → Reads 0x02 value d d'
    → d'.max_clock_hz ≡ number 4 value
unfolding read_or_broken read_value read_rest unpack_field
Reads-max_clock_hz value d d' h e = ground arith

pub Reads-max_length :
    (value : Bytes) (d d' : Description)
    → d.max_length ≡ none
    → Reads 0x03 value d d'
    → d'.max_length ≡ number 2 value
unfolding read_or_broken read_value read_rest unpack_field
Reads-max_length value d d' h e = ground arith

pub Reads-min_clock_hz :
    (value : Bytes) (d d' : Description)
    → d.min_clock_hz ≡ none
    → Reads 0x04 value d d'
    → d'.min_clock_hz ≡ number 4 value
unfolding read_or_broken read_value read_rest unpack_field
Reads-min_clock_hz value d d' h e = ground arith

pub Reads-features :
    (value : Bytes) (d d' : Description)
    → d.features ≡ none
    → Reads 0x05 value d d'
    → d'.features ≡ number 4 value
unfolding read_or_broken read_value read_rest unpack_field
Reads-features value d d' h e = ground arith

-- The operations of a value, none of one that breaks the encoding.
abbrev pub ops_or_none : Bytes → Option (List ℕ)
ops_or_none value = elim (unpack_ops value) [ ok ops ↦ some ops | raise e ↦ none ]

pub Reads-ops :
    (value : Bytes) (d d' : Description)
    → d.ops ≡ none
    → Reads 0x07 value d d'
    → (d'.ops ≡ ops_or_none value)
unfolding read_or_broken read_value read_rest set_ops unpack_ops check_ops
Reads-ops value d d' h e = ground arith

-- Whether there is a value of the ops tag that breaks the encoding.
abbrev pub invalid : Description → Option Bool
invalid d = if d.ops_invalid then some true else none

pub Reads-invalid :
    (value : Bytes) (d d' : Description)
    → invalid d ≡ none
    → Reads 0x07 value d d'
    → invalid d' ≡ (if check_ops value then some true else none)
unfolding read_or_broken read_value read_rest set_ops unpack_ops check_ops
Reads-invalid value d d' h e = ground arith
