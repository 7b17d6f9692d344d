-- ===== src/Message/Reader/Fields.antt =====
-- What the reader's methods promise: a field that was packed is read back where it stands, a read
-- moves over exactly what it returns, and a read past the end is ShortPayload.
use oep_client_python.Prelude.{
  ℕ, zero, suc, ◌+◌, ◌/◌, ◌^◌, ◌<◌, ◌≡◌, refl, ◌↔◌, List, [], ◌∷◌, ◌++◌, arith, length,
  length-append, take, drop-append, All, append_assoc,
}
use oep_client_python.Try.{ok, raise, short_payload}
use oep_client_python.Bytes.{Bytes, field, le_bytes, le_value-le_bytes, length-le_bytes}
use oep_client_python.Message.Reader.{Reader, calcsize, unpack_from, take_format}

-- Fields of a fixed part with their values: a size and a value each.
abbrev pub pack_fixed : List (ℕ × ℕ) → Bytes
pack_fixed [] = []
pack_fixed ((n, v) ∷ fields) = le_bytes n v ++ pack_fixed fields

abbrev pub sizes : List (ℕ × ℕ) → List ℕ
sizes [] = []
sizes ((n, v) ∷ fields) = n ∷ sizes fields

abbrev pub values : List (ℕ × ℕ) → List ℕ
values [] = []
values ((n, v) ∷ fields) = v ∷ values fields

abbrev pub Fits : ℕ × ℕ → Type 0
Fits f = f.1 < 256 ^ f.0

take-le_bytes : (n v : ℕ) (back : Bytes) → take n (le_bytes n v ++ back) ≡ le_bytes n v
take-le_bytes zero v back = refl
take-le_bytes (suc n) v back = rw (take-le_bytes n (v / 256) back)

field-append :
    (front : Bytes) (n v : ℕ) (back : Bytes)
    → v < 256 ^ n
    → field (front ++ (le_bytes n v ++ back)) (length front) n ≡ v
field-append front n v back h = rw (drop-append, take-le_bytes) (le_value-le_bytes n v h)

unpack_from-append :
    (fields : List (ℕ × ℕ)) (front back : Bytes)
    → All Fits fields
    → unpack_from (sizes fields) (front ++ (pack_fixed fields ++ back)) (length front)
      ≡ values fields
unpack_from-append [] front back h = refl
unpack_from-append ((n, v) ∷ fields) front back h =
    let later = unpack_from-append fields (front ++ le_bytes n v) back h.1 in
    let here = field-append front n v (pack_fixed fields ++ back) h.0 in
    let moved : length (front ++ le_bytes n v) ≡ length front + n =
      omega (arith, length-append front (le_bytes n v), length-le_bytes n v) in
    rw (
      append_assoc (le_bytes n v) (pack_fixed fields) back,
      here,
      ← moved,
      ← append_assoc front (le_bytes n v) (pack_fixed fields ++ back),
      later,
    )

pub length-pack_fixed :
    (fields : List (ℕ × ℕ)) → length (pack_fixed fields) ≡ calcsize (sizes fields)
length-pack_fixed [] = refl
length-pack_fixed ((n, v) ∷ fields) = omega (
  arith,
  length-append (le_bytes n v) (pack_fixed fields),
  length-le_bytes n v,
  length-pack_fixed fields,
)

-- A fixed part packed behind any bytes and before any others is read back whole, field by field, by one
-- `take` of its format, and the reader stands behind it.
pub take_format-pack_fixed :
    (fields : List (ℕ × ℕ)) (front back : Bytes)
    → All Fits fields
    → take_format
        (sizes fields)
        (record { payload = front ++ (pack_fixed fields ++ back); at = length front })
      ≡ ok (
        values fields,
        record {
          payload = front ++ (pack_fixed fields ++ back);
          at = length front + calcsize (sizes fields);
        },
      )
unfolding take_format
take_format-pack_fixed fields front back h = ground (
  arith,
  unpack_from-append fields front back h,
  length-append front (pack_fixed fields ++ back),
  length-append (pack_fixed fields) back,
  length-pack_fixed fields,
)

-- `take` raises exactly where the payload ends before the format does, and it raises ShortPayload.
pub take_format_short :
    (format : List ℕ) (r : Reader)
    → (take_format format r ≡ raise short_payload) ↔ (length r.payload < r.at + calcsize format)
unfolding take_format
take_format_short format r = ground arith
