-- ===== src/Catalog/Describe/Errors.antt =====
-- Where decoding a describe raises.
use oep_client_python.Prelude.{
  ℕ, zero, suc, ◌≡◌, ◌≢◌, refl, inl, inr, ◌⊎◌, Bool, true, false, not, ◌&&◌, ◌||◌, List, [], ◌∷◌,
  ◌++◌, if◌then◌else◌, arith, ltb, ◌==◌, length, drop, bit_and, Bool-cases,
}
use oep_client_python.Try.{Error, Try, ok, raise, struct_error, index_error, Try-cases}
use oep_client_python.Bytes.{Bytes}
use oep_client_python.Message.Tlv.{Tlv, split_tlvs}
use oep_client_python.Catalog.SortedSet.{has}
use oep_client_python.Catalog.Bitmap.{check_ops, unpack_ops}
use oep_client_python.Catalog.Describe.{
  Description, unpack_pins, unpack_channel_group, unpack_field, is_once, read_value, read_rest,
  read_or_broken, read_tlv, read_tlvs, set_ops, no_description, finished, decode_description,
}

-- A channel group of less than two bytes.
abbrev pub is_short_group : Tlv → Bool
is_short_group (t, value) = t == 0x06 && ltb (length value) 2

abbrev pub has_short_group : List Tlv → Bool
has_short_group [] = false
has_short_group (t ∷ tlvs) = is_short_group t || has_short_group tlvs

-- What comes of one TLV: a state, or IndexError.
abbrev Outcome : {A : Type 0} → Bool → Try A → Type 0
Outcome {A} short r =
    ((short ≡ false) × (a : A) × (r ≡ ok a)) ⊎ ((short ≡ true) × (r ≡ raise index_error))

unpack_pins-raises :
    (n : ℕ) (value : Bytes) (e : Error) → unpack_pins n value ≡ raise e → e ≡ struct_error
unfolding unpack_pins
unpack_pins-raises zero value e h = ground arith
unpack_pins-raises (suc n) value e h = ground (arith, unpack_pins-raises n (drop 3 value) e)

unpack_channel_group-raises :
    (value : Bytes) (e : Error)
    → unpack_channel_group value ≡ raise e
    → ((ltb (length value) 2 ≡ false) × (e ≡ struct_error))
      ⊎ ((ltb (length value) 2 ≡ true) × (e ≡ index_error))
unfolding unpack_channel_group
unpack_channel_group-raises [] e h = ground arith
unpack_channel_group-raises (g ∷ []) e h = ground arith
unpack_channel_group-raises (g ∷ n ∷ value) e h = ground (arith, unpack_pins-raises n value e)

unpack_channel_group_long :
    (value : Bytes) (p : ℕ × List (ℕ × ℕ))
    → unpack_channel_group value ≡ ok p
    → ltb (length value) 2 ≡ false
unfolding unpack_channel_group
unpack_channel_group_long [] p h = ground arith
unpack_channel_group_long (g ∷ []) p h = ground arith
unpack_channel_group_long (g ∷ n ∷ value) p h = ground arith

read_value-raises :
    (t : ℕ) (value : Bytes) (d : Description) (e : Error)
    → read_value t value d ≡ raise e
    → ((is_short_group (t, value) ≡ false) × (e ≡ struct_error))
      ⊎ ((is_short_group (t, value) ≡ true) × (e ≡ index_error))
unfolding read_value unpack_field
read_value-raises t value d e h = ground (arith, unpack_channel_group-raises value e)

read_value_long :
    (t : ℕ) (value : Bytes) (d d' : Description)
    → read_value t value d ≡ ok d'
    → is_short_group (t, value) ≡ false
unfolding read_value
read_value_long t value d d' h = elim (Try-cases (unpack_channel_group value)) [
  | inl (p, one) ↦ ground (arith, unpack_channel_group_long value p one)
  | inr (e, one) ↦ ground (arith, rw one at h)
]

read_rest_not_raise :
    (t : ℕ) (value : Bytes) (d : Description) (e : Error) → read_rest t value d ≢ raise e
unfolding read_rest set_ops unpack_ops check_ops
read_rest_not_raise t value d e = λ h. ground arith

read_or_broken-Outcome :
    (t : ℕ) (value : Bytes) (d : Description)
    → Outcome (is_short_group (t, value)) (read_or_broken t value d (read_value t value d))
unfolding read_or_broken
read_or_broken-Outcome t value d = elim (Try-cases (read_value t value d)) [
  | inl (d1, one) ↦ elim (Try-cases (read_rest t value d1)) [
    | inl (d2, two) ↦ inl (read_value_long t value d d1 one, d2, rw one two)
    | inr (e, two) ↦ absurd (read_rest_not_raise t value d1 e two)
  ]
  | inr (e, one) ↦ elim (read_value-raises t value d e one) [
    | inl (long, is) ↦ inl (long, record d { broken = d.broken ++ (t ∷ []) }, rw (one, is) refl)
    | inr (short, is) ↦ inr (short, rw (one, is) refl)
  ]
]

read_tlv-Outcome :
    (t : ℕ) (value : Bytes) (d : Description) (seen : List ℕ)
    → Outcome (is_short_group (t, value)) (read_tlv (t, value) (d, seen))
unfolding read_tlv
read_tlv-Outcome t value d seen = elim (Bool-cases (not (bit_and t 0x80 == 0))) [
  | inl critical ↦ inl (ground arith, (d, seen), rw critical)
  | inr plain ↦ elim (Bool-cases (is_once t && has t seen)) [
    | inl again ↦ inl (ground arith, (d, seen), rw (plain, again))
    | inr new ↦ elim (read_or_broken-Outcome t value d) [
      | inl (long, d1, one) ↦
          inl (long, (d1, if is_once t then t ∷ seen else seen), rw (plain, new, one) refl)
      | inr (short, one) ↦ inr (short, rw (plain, new, one) refl)
    ]
  ]
]

read_tlvs-Outcome :
    (tlvs : List Tlv) (s : Description × List ℕ) → Outcome (has_short_group tlvs) (read_tlvs tlvs s)
unfolding read_tlvs
read_tlvs-Outcome [] s = inl (refl, s, refl)
read_tlvs-Outcome ((t, value) ∷ tlvs) (d, seen) = elim (read_tlv-Outcome t value d seen) [
  | inl (long, s1, one) ↦ elim (read_tlvs-Outcome tlvs s1) [
    | inl (none_, s2, more) ↦ inl (rw long none_, s2, rw one more)
    | inr (found, more) ↦ inr (rw long found, rw one more)
  ]
  | inr (short, one) ↦ inr (rw short refl, rw one refl)
]

-- A describe whose TLVs can be split is decoded, broken values and unknown tags included, unless it has a
-- channel group of less than two bytes: then decoding raises IndexError.
pub decode_description_cases :
    (raw : Bytes) (tlvs : List Tlv)
    → split_tlvs raw ≡ ok tlvs
    → ((has_short_group tlvs ≡ false) × (d : Description) × (decode_description raw ≡ ok d))
      ⊎ ((has_short_group tlvs ≡ true) × (decode_description raw ≡ raise index_error))
unfolding decode_description
decode_description_cases raw tlvs split = elim (read_tlvs-Outcome tlvs (no_description, [])) [
  | inl (long, (d1, seen), loop) ↦ inl (long, finished d1, rw (split, loop) refl)
  | inr (short, loop) ↦ inr (short, rw (split, loop) refl)
]
