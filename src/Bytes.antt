-- ===== src/Bytes.antt =====
-- Byte strings as lists of numbers, slices of them, and the little-endian integers of Python's
-- `struct` module: "<B", "<H", "<I" and "<Q" are fields of 1, 2, 4 and 8 bytes.
use oep_client_python.Prelude.{
  ℕ, zero, suc, ◌+◌, ◌*◌, ◌/◌, ◌%◌, ◌^◌, ◌<◌, ◌≡◌, refl, ap, List, [], ◌∷◌, arith, ltb, length,
  ◌++◌, take, drop, All, if◌then◌else◌,
}
use native.Mathlib.Nat.{pow-suc}
use oep_client_python.Try.{Try, ok, raise, struct_error}

abbrev pub Bytes : Type 0
Bytes = List ℕ

abbrev pub IsByte : ℕ → Type 0
IsByte b = b < 256

-- data[at:at + n]
abbrev pub slice : Bytes → ℕ → ℕ → Bytes
slice bytes at n = take n (drop at bytes)

-- The unsigned integer of a little-endian field.
abbrev pub le_value : Bytes → ℕ
le_value [] = 0
le_value (b ∷ bs) = b + 256 * le_value bs

abbrev pub le_bytes : ℕ → ℕ → Bytes
le_bytes zero v = []
le_bytes (suc n) v = v % 256 ∷ le_bytes n (v / 256)

-- struct.unpack_from of one field of n bytes at an offset.
abbrev pub field : Bytes → ℕ → ℕ → ℕ
field bytes at n = le_value (slice bytes at n)

-- struct.pack of one unsigned field of n bytes; a value that does not fit is struct.error.
abbrev pub pack_field : ℕ → ℕ → Try Bytes
pack_field n v = if ltb v (256 ^ n) then ok (le_bytes n v) else raise struct_error

pub le_value-le_bytes : (n v : ℕ) → v < 256 ^ n → le_value (le_bytes n v) ≡ v
le_value-le_bytes zero v h = omega arith
le_value-le_bytes (suc n) v h =
    let ih = le_value-le_bytes n (v / 256) (omega (arith, pow-suc 256 n)) in omega (arith, ih)

pub le_bytes-le_value : (bs : Bytes) → All IsByte bs → le_bytes (length bs) (le_value bs) ≡ bs
le_bytes-le_value [] h = refl
le_bytes-le_value (b ∷ bs) (hb, hbs) =
    let e : (b + 256 * le_value bs) / 256 ≡ le_value bs = omega arith in
    let r : (b + 256 * le_value bs) % 256 ≡ b = omega arith in rw (r, e, le_bytes-le_value bs hbs)

pub length-le_bytes : (n v : ℕ) → length (le_bytes n v) ≡ n
length-le_bytes zero v = refl
length-le_bytes (suc n) v = ap suc (length-le_bytes n (v / 256))

pub le_bytes-IsByte : (n v : ℕ) → All IsByte (le_bytes n v)
le_bytes-IsByte zero v = tt
le_bytes-IsByte (suc n) v = (omega arith, le_bytes-IsByte n (v / 256))

pub le_value-lt : (bs : Bytes) → All IsByte bs → le_value bs < 256 ^ length bs
le_value-lt [] h = omega arith
le_value-lt (b ∷ bs) (hb, hbs) = omega (arith, le_value-lt bs hbs, pow-suc 256 (length bs))

pub take-le_bytes : (n v : ℕ) (more : Bytes) → take n (le_bytes n v ++ more) ≡ le_bytes n v
take-le_bytes zero v more = refl
take-le_bytes (suc n) v more = ap (λ t. v % 256 ∷ t) (take-le_bytes n (v / 256) more)

pub drop-le_bytes : (n v : ℕ) (more : Bytes) → drop n (le_bytes n v ++ more) ≡ more
drop-le_bytes zero v more = refl
drop-le_bytes (suc n) v more = drop-le_bytes n (v / 256) more

pub field-le_bytes : (n v : ℕ) (more : Bytes) → v < 256 ^ n → field (le_bytes n v ++ more) 0 n ≡ v
field-le_bytes n v more h = rw (take-le_bytes n v more) (le_value-le_bytes n v h)
