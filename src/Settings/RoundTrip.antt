-- ===== src/Settings/RoundTrip.antt =====
-- The values of an answer are split as they were written.
use oep_client_python.Prelude.{
  ℕ, suc, ◌+◌, ◌*◌, ◌/◌, ◌%◌, ◌<◌, ◌≤◌, ◌≡◌, refl, sym, subst, false, List, [], ◌∷◌, ◌++◌,
  append_assoc, arith, ltb, length, length-append, take-append, drop-append, All,
}
use oep_client_python.Try.{ok}
use oep_client_python.Bytes.{Bytes, le_bytes, field}
use oep_client_python.Settings.{Value, value_at, after_value, split_values}

-- A value that has an encoding.
pub record IsValue (v : Value) : Type 0 where
  pub fn : v.fn < 0x10000
  pub number : v.number < 0x100
  pub key : v.key < 0x10000
  pub size : length v.value < 0x10000

abbrev pub value_bytes : Value → Bytes
value_bytes v =
    le_bytes 2 v.fn
    ++ (le_bytes 1 v.number ++ (le_bytes 2 v.key ++ (le_bytes 2 (length v.value) ++ v.value)))

abbrev pub values_bytes : List Value → Bytes
values_bytes [] = []
values_bytes (v ∷ values) = value_bytes v ++ values_bytes values

value_at-append :
    (v : Value) (more : Bytes)
    → IsValue v
    → (value_at (value_bytes v ++ more) ≡ v) × (after_value (value_bytes v ++ more) ≡ more)
value_at-append v more h =
    let size : length v.value % 256 + 256 * (length v.value / 256 % 256 + 256 * 0)
        ≡ length v.value =
      omega (arith, h.size) in
    let key : v.key % 256 + 256 * (v.key / 256 % 256 + 256 * 0) ≡ v.key = omega (arith, h.key) in
    let fn : v.fn % 256 + 256 * (v.fn / 256 % 256 + 256 * 0) ≡ v.fn = omega (arith, h.fn) in
    let number : v.number % 256 + 256 * 0 ≡ v.number = omega (arith, h.number) in
    (rw (size, key, fn, number, take-append) refl, rw (size, drop-append) refl)

-- One round, from what its bytes hold.
split_values_round :
    (count : ℕ) (bytes rest tail : Bytes) (v : Value) (out : List Value)
    → 7 + field bytes 5 2 ≤ length bytes
    → value_at bytes ≡ v
    → after_value bytes ≡ rest
    → split_values count rest ≡ ok (out, tail)
    → split_values (suc count) bytes ≡ ok (v ∷ out, tail)
unfolding split_values
split_values_round count bytes rest tail v out size here behind later =
    let more : split_values count (after_value bytes) ≡ ok (out, tail) = rw behind later in
    let long : ltb (length bytes) 7 ≡ false = ground (arith, size) in
    let fits : ltb (length bytes) (7 + field bytes 5 2) ≡ false = ground (arith, size) in
    rw (long, fits, more, here) refl

-- A count of values, written one after the other, is split again, and the answer's tail stays.
pub split_values-values_bytes :
    (values : List Value) (more : Bytes)
    → All IsValue values
    → split_values (length values) (values_bytes values ++ more) ≡ ok (values, more)
unfolding split_values
split_values-values_bytes [] more h = refl
split_values-values_bytes (v ∷ values) more h =
    let back = values_bytes values ++ more in
    let (here, behind) = value_at-append v back h.0 in
    let size : length v.value % 256 + 256 * (length v.value / 256 % 256 + 256 * 0)
        ≡ length v.value =
      omega (arith, h.0.size) in
    subst (λ bytes. split_values (suc (length values)) bytes ≡ ok (v ∷ values, more))
      (sym (append_assoc (value_bytes v) (values_bytes values) more))
      (split_values_round (length values) (value_bytes v ++ back) back more v values
        (omega (arith, size, length-append v.value back)) here behind
        (split_values-values_bytes values more h.1))
