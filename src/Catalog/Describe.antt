-- ===== src/Catalog/Describe.antt =====
-- src/oep_client/catalog.py: the TLVs of a describe, read into a description.
pub mod Kept
pub mod First
pub mod Errors
use oep_client_python.Prelude.{
  ℕ, zero, suc, ◌+◌, ◌*◌, Bool, true, false, not, ◌&&◌, ◌||◌, Option, none, some, List, [], ◌∷◌,
  ◌++◌, map, ltb, leb, ◌==◌, length, drop, bit_and, if◌then◌else◌,
}
use oep_client_python.Try.{Error, Try, ok, raise, value_error, struct_error, index_error, ◌>>=◌}
use oep_client_python.Bytes.{Bytes, field, le_value}
use oep_client_python.Registry.{
  tag_critical, tag_role_channels, tag_max_clock_hz, tag_max_length, tag_min_clock_hz, tag_features,
  tag_channel_group, tag_ops,
}
use oep_client_python.Message.Tlv.{Tlv, split_tlvs}
use oep_client_python.Catalog.SortedSet.{sorted_set, has}
use oep_client_python.Catalog.Bitmap.{bitmap_to_channels, check_ops, unpack_ops}

-- `first_value` and `first_fixed`
unfoldable pub first_value : List Tlv → ℕ → Option Bytes
first_value [] tag = none
first_value ((t, v) ∷ tlvs) tag = if t == tag then some v else first_value tlvs tag

unfoldable pub fixed_or_none : ℕ → Option Bytes → Option Bytes
fixed_or_none size none = none
fixed_or_none size (some value) = if length value == size then some value else none

unfoldable pub first_fixed : List Tlv → ℕ → ℕ → Option Bytes
unfolding first_value fixed_or_none
first_fixed tlvs tag size = fixed_or_none size (first_value tlvs tag)

-- `ops_invalid` is whether the source's text is not empty.
pub record Description : Type 0 where
  pub roles : List (ℕ × List ℕ)
  pub groups : List (ℕ × List (ℕ × ℕ))
  pub max_clock_hz : Option ℕ
  pub min_clock_hz : Option ℕ
  pub max_length : Option ℕ
  pub features : Option ℕ
  pub ops : Option (List ℕ)
  pub ops_invalid : Bool
  pub specific : List Tlv
  pub unknown_critical : List ℕ
  pub broken : List ℕ

unfoldable pub no_description : Description
no_description = record {
  roles = [];
  groups = [];
  max_clock_hz = none;
  min_clock_hz = none;
  max_length = none;
  features = none;
  ops = none;
  ops_invalid = false;
  specific = [];
  unknown_critical = [];
  broken = [];
}

-- d.roles.setdefault(role, []).extend(channels)
unfoldable pub extend_role : ℕ → List ℕ → List (ℕ × List ℕ) → List (ℕ × List ℕ)
extend_role role channels [] = (role, channels) ∷ []
extend_role role channels ((r, old) ∷ roles) =
    if r == role then (r, old ++ channels) ∷ roles else (r, old) ∷ extend_role role channels roles

-- d.groups[group] = pins
unfoldable pub put_group {ℓ} : {A : Type ℓ} → ℕ → A → List (ℕ × A) → List (ℕ × A)
put_group group pins [] = (group, pins) ∷ []
put_group group pins ((g, old) ∷ groups) =
    if g == group then (g, pins) ∷ groups else (g, old) ∷ put_group group pins groups

-- The list is value[2 + 3 * i:].
unfoldable pub unpack_pins : ℕ → Bytes → Try (List (ℕ × ℕ))
unpack_pins zero value = ok []
unpack_pins (suc n) value =
    if ltb (length value) 3
    then raise struct_error
    else do pins ← unpack_pins n (drop 3 value); ok ((field value 0 1, field value 1 2) ∷ pins)

unfoldable pub unpack_channel_group : Bytes → Try (ℕ × List (ℕ × ℕ))
unfolding unpack_pins
unpack_channel_group [] = raise index_error
unpack_channel_group (group ∷ []) = raise index_error
unpack_channel_group (group ∷ n ∷ value) = do pins ← unpack_pins n value; ok (group, pins)

-- struct.unpack of one field of n bytes
unfoldable pub unpack_field : ℕ → Bytes → Try ℕ
unpack_field n value = if length value == n then ok (le_value value) else raise struct_error

abbrev pub is_single : ℕ → Bool
is_single t =
    t == tag_max_clock_hz || t == tag_min_clock_hz || t == tag_max_length || t == tag_features

abbrev pub is_once : ℕ → Bool
is_once t = t == tag_ops || is_single t

-- The body of `try`.
unfoldable pub read_value : ℕ → Bytes → Description → Try Description
unfolding extend_role put_group unpack_channel_group unpack_field bitmap_to_channels
read_value t value d =
    if t == tag_role_channels
    then (if ltb (length value) 3
        then raise struct_error
        else (let channels = bitmap_to_channels (field value 1 2) (drop 3 value) in
            ok (record d { roles = extend_role (field value 0 1) channels d.roles })))
    else if t == tag_channel_group
    then (unpack_channel_group value >>= λ (group, pins).
        ok (record d { groups = put_group group pins d.groups }))
    else if t == tag_max_clock_hz
    then (unpack_field 4 value >>= λ v. ok (record d { max_clock_hz = some v }))
    else if t == tag_min_clock_hz
    then (unpack_field 4 value >>= λ v. ok (record d { min_clock_hz = some v }))
    else if t == tag_max_length
    then (unpack_field 2 value >>= λ v. ok (record d { max_length = some v }))
    else if t == tag_features
    then (unpack_field 4 value >>= λ v. ok (record d { features = some v }))
    else ok d

-- d.ops, of a value that `check_ops` has passed
unfoldable pub set_ops : Bytes → Description → Try Description
unfolding unpack_ops
set_ops value d = do ops ← unpack_ops value; ok (record d { ops = some ops })

-- What follows the `try`, where it did not raise.
unfoldable pub read_rest : ℕ → Bytes → Description → Try Description
unfolding set_ops check_ops
read_rest t value d =
    if t == tag_role_channels || t == tag_channel_group || is_single t
    then ok d
    else if t == tag_ops
    then (if check_ops value then ok (record d { ops_invalid = true }) else set_ops value d)
    else if leb 0x40 t
    then ok (record d { specific = d.specific ++ ((t, value) ∷ []) })
    else if not (bit_and t tag_critical == 0)
    then ok (record d { unknown_critical = d.unknown_critical ++ (t ∷ []) })
    else ok d

-- except (struct.error, ValueError)
abbrev pub is_caught : Error → Bool
is_caught struct_error = true
is_caught value_error = true
is_caught e = false

unfoldable pub read_or_broken : ℕ → Bytes → Description → Try Description → Try Description
unfolding read_rest
read_or_broken t value d (ok d') = read_rest t value d'
read_or_broken t value d (raise e) =
    if is_caught e then ok (record d { broken = d.broken ++ (t ∷ []) }) else raise e

-- One round of the loop; the second component is `seen`.
unfoldable pub read_tlv : Tlv → Description × List ℕ → Try (Description × List ℕ)
unfolding read_or_broken read_value
read_tlv (t, value) (d, seen) =
    if not (bit_and t tag_critical == 0)
    then ok (d, seen)
    else if is_once t && has t seen
    then ok (d, seen)
    else do
      d' ← read_or_broken t value d (read_value t value d)
      ok (d', if is_once t then t ∷ seen else seen)

unfoldable pub read_tlvs : List Tlv → Description × List ℕ → Try (Description × List ℕ)
unfolding read_tlv
read_tlvs [] s = ok s
read_tlvs (t ∷ tlvs) s = do s' ← read_tlv t s; read_tlvs tlvs s'

-- What follows the loop.
unfoldable pub finished : Description → Description
unfolding sorted_set
finished d = record d {
  roles = map (λ (role, channels). (role, sorted_set channels)) d.roles;
  ops = if d.ops_invalid then none else d.ops;
}

unfoldable pub decode_description : Bytes → Try Description
unfolding read_tlvs no_description finished split_tlvs
decode_description bytes = do
  tlvs ← split_tlvs bytes
  (d, seen) ← read_tlvs tlvs (no_description, [])
  ok (finished d)
