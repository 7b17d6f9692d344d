-- ===== src/CaptureBlocks/Analog/Inverse.antt =====
-- Segments of analog blocks are read back as they were written.
use native.Mathlib.Nat.{
  pow-suc, mul-suc, mul_assoc, mul-le-mul_left, add-mul-mod_self_left, add-mul-div_left,
  mod-eq_of_lt, div-eq_of_lt, div-div-eq-div-mul,
}
use oep_client_python.Prelude.{
  ℕ, zero, suc, ◌+◌, ◌-◌, ◌*◌, ◌/◌, ◌%◌, ◌^◌, ◌<◌, ◌≤◌, ◌≡◌, ◌≢◌, ◌==◌, refl, ap, ◌∙◌, List, [],
  ◌∷◌, ◌++◌, false, if◌then◌else◌, Bool-cases, inl, inr, arith, length, All,
}
use oep_client_python.Bytes.{Bytes, le_value, le_bytes, le_value-le_bytes}
use oep_client_python.CaptureBlocks.Logic.{intervals}
use oep_client_python.CaptureBlocks.Timed.Inverse.{state_room}
use oep_client_python.CaptureBlocks.Analog.{
  take_bits, take_values, AnalogChannel, packed, minmax, sum, bit_length, has_bit, take_intervals,
  read_channel,
}

-- Fields one after the other from the lowest bit: a width and a value each.
abbrev pub pack_bits : List (ℕ × ℕ) → ℕ
pack_bits [] = 0
pack_bits ((bits, v) ∷ fields) = v + 2 ^ bits * pack_bits fields

abbrev pub width : List (ℕ × ℕ) → ℕ
width [] = 0
width ((bits, v) ∷ fields) = bits + width fields

abbrev pub Fits : ℕ × ℕ → Type 0
Fits f = f.1 < 2 ^ f.0

pow_sum : (a k : ℕ) → 2 ^ (a + k) ≡ 2 ^ a * 2 ^ k
pow_sum a zero = let e : a + 0 ≡ a = omega arith in rw e (omega arith)
pow_sum a (suc k) =
    let e : a + suc k ≡ suc (a + k) = omega arith in
    rw (e, pow-suc 2 (a + k), pow-suc 2 k, pow_sum a k) (mul_assoc (2 ^ a) (2 ^ k) 2)

low_field : (m v more : ℕ) → v < m → ((v + m * more) % m ≡ v) × ((v + m * more) / m ≡ more)
low_field m v more h = (
  add-mul-mod_self_left v m more ∙ mod-eq_of_lt h,
  add-mul-div_left v more (omega (arith, h)) ∙ omega (arith, div-eq_of_lt h),
)

-- The accumulator holds the fields from the bit `at` on.
abbrev Holds : ℕ → ℕ → List (ℕ × ℕ) → Type 0
Holds acc at fields = acc / 2 ^ at ≡ pack_bits fields

below : (m n v more : ℕ) → v < m → more < n → v + m * more < m * n
below m n v more h k =
    let step : m * suc more ≤ m * n = mul-le-mul_left m k in omega (arith, h, step, mul-suc m more)

pack_bits-lt : (fields : List (ℕ × ℕ)) → All Fits fields → pack_bits fields < 2 ^ width fields
pack_bits-lt [] h = omega arith
pack_bits-lt ((bits, v) ∷ fields) h =
    let more = pack_bits-lt fields h.1 in
    rw (pow_sum bits (width fields))
      (below (2 ^ bits) (2 ^ width fields) v (pack_bits fields) h.0 more)

take_bits-Holds :
    (acc at bits v : ℕ) (fields : List (ℕ × ℕ))
    → v < 2 ^ bits
    → Holds acc at ((bits, v) ∷ fields)
    → (take_bits acc bits at ≡ (v, at + bits)) × Holds acc (at + bits) fields
take_bits-Holds acc at bits v fields h e =
    let (value, rest) = low_field (2 ^ bits) v (pack_bits fields) h in
    let moved : acc / 2 ^ (at + bits) ≡ acc / 2 ^ at / 2 ^ bits =
      rw (div-div-eq-div-mul acc (2 ^ at) (2 ^ bits), pow_sum at bits) refl in
    (rw (e, value) refl, moved ∙ ap (λ t. t / 2 ^ bits) e ∙ rest)

-- Values of b bits each.
abbrev pub plain : ℕ → List ℕ → List (ℕ × ℕ)
plain b [] = []
plain b (v ∷ vs) = (b, v) ∷ plain b vs

take_values-Holds :
    (acc b at : ℕ) (vs : List ℕ)
    → All (λ v. v < 2 ^ b) vs
    → Holds acc at (plain b vs)
    → take_values acc b (length vs) at ≡ vs
unfolding take_values
take_values-Holds acc b at [] h e = refl
take_values-Holds acc b at (v ∷ vs) h e =
    let (one, more) = take_bits-Holds acc at b v (plain b vs) h.0 e in
    rw (ap (λ x. x.0) one, take_values-Holds acc b (at + b) vs h.1 more) refl

-- An interval: its least and its greatest value, and its sum.
abbrev pub Interval : Type 0
Interval = ℕ × ℕ × ℕ

-- The fields of an interval of `d` samples, in the order they are written.
abbrev pub summary : ℕ → ℕ → ℕ → Interval → List (ℕ × ℕ)
summary kind d b (low, high, total) =
    let sums = if has_bit kind sum then (b + bit_length (d - 1), total) ∷ [] else [] in
    if has_bit kind minmax then (b, low) ∷ (b, high) ∷ sums else sums

abbrev pub summaries : ℕ → ℕ → ℕ → List Interval → List (ℕ × ℕ)
summaries kind d b [] = []
summaries kind d b (i ∷ is) = summary kind d b i ++ summaries kind d b is

-- The channel that the intervals stand for, behind what a channel holds.
abbrev pub with_intervals : List Interval → AnalogChannel → AnalogChannel
with_intervals [] c = c
with_intervals ((low, high, total) ∷ is) c =
    let c1 =
      if has_bit c.kind minmax
      then record c { mins = c.mins ++ (low ∷ []); maxs = c.maxs ++ (high ∷ []) }
      else c in
    let c2 = if has_bit c.kind sum then record c1 { sums = c1.sums ++ (total ∷ []) } else c1 in
    with_intervals is c2

take_intervals-Holds :
    (acc b at : ℕ) (is : List Interval) (c : AnalogChannel)
    → All Fits (summaries c.kind c.d b is)
    → Holds acc at (summaries c.kind c.d b is)
    → take_intervals acc b (length is) at c ≡ with_intervals is c
unfolding take_intervals
take_intervals-Holds acc b at [] c h e = refl
take_intervals-Holds acc b at ((low, high, total) ∷ is) c h e =
    elim (Bool-cases (has_bit c.kind minmax)) [
      | inl m ↦ elim (Bool-cases (has_bit c.kind sum)) [
        | inl s ↦
            let h' = rw (m, s) at h in
            let e' = rw (m, s) at e in
            let (one, e1) =
              take_bits-Holds acc at b low
                ((b, high) ∷ (b + bit_length (c.d - 1), total) ∷ summaries c.kind c.d b is) h'.0
                e' in
            let (two, e2) =
              take_bits-Holds acc (at + b) b high
                ((b + bit_length (c.d - 1), total) ∷ summaries c.kind c.d b is) h'.1.0 e1 in
            let (three, e3) =
              take_bits-Holds acc (at + b + b) (b + bit_length (c.d - 1)) total
                (summaries c.kind c.d b is) h'.1.1.0 e2 in
            rw (take_intervals, m, s, ap (λ x. x.0) one, ap (λ x. x.0) two, ap (λ x. x.0) three)
              (take_intervals-Holds acc b (at + b + b + (b + bit_length (c.d - 1))) is
                (record c {
                  mins = c.mins ++ (low ∷ []);
                  maxs = c.maxs ++ (high ∷ []);
                  sums = c.sums ++ (total ∷ []);
                })
                h'.1.1.1 e3)
        | inr s ↦
            let h' = rw (m, s) at h in
            let e' = rw (m, s) at e in
            let (one, e1) =
              take_bits-Holds acc at b low ((b, high) ∷ summaries c.kind c.d b is) h'.0 e' in
            let (two, e2) =
              take_bits-Holds acc (at + b) b high (summaries c.kind c.d b is) h'.1.0 e1 in
            rw (take_intervals, m, s, ap (λ x. x.0) one, ap (λ x. x.0) two)
              (take_intervals-Holds acc b (at + b + b) is
                (record c { mins = c.mins ++ (low ∷ []); maxs = c.maxs ++ (high ∷ []) }) h'.1.1 e2)
      ]
      | inr m ↦ elim (Bool-cases (has_bit c.kind sum)) [
        | inl s ↦
            let h' = rw (m, s) at h in
            let e' = rw (m, s) at e in
            let (three, e3) =
              take_bits-Holds acc at (b + bit_length (c.d - 1)) total (summaries c.kind c.d b is)
                h'.0 e' in
            rw (take_intervals, m, s, ap (λ x. x.0) three)
              (take_intervals-Holds acc b (at + (b + bit_length (c.d - 1))) is
                (record c { sums = c.sums ++ (total ∷ []) }) h'.1 e3)
        | inr s ↦
            rw (take_intervals, m, s)
              (take_intervals-Holds acc b at is c (rw (m, s) at h) (rw (m, s) at e))
      ]
    ]

le_value-written :
    (fields : List (ℕ × ℕ))
    → All Fits fields
    → le_value (le_bytes ((width fields + 7) / 8) (pack_bits fields)) ≡ pack_bits fields
le_value-written fields h =
    le_value-le_bytes _ _ (state_room (width fields) (pack_bits fields) (pack_bits-lt fields h))

Holds-start : (fields : List (ℕ × ℕ)) → Holds (pack_bits fields) 0 fields
Holds-start fields = omega arith

plain-Fits : (b : ℕ) (vs : List ℕ) → All (λ v. v < 2 ^ b) vs → All Fits (plain b vs)
plain-Fits b [] h = tt
plain-Fits b (v ∷ vs) h = (h.0, plain-Fits b vs h.1)

-- The bytes of fields, the last one ending on a byte.
abbrev pub field_bytes : List (ℕ × ℕ) → Bytes
field_bytes fields = le_bytes ((width fields + 7) / 8) (pack_bits fields)

abbrev pub no_channel : ℕ → ℕ → AnalogChannel
no_channel kind d = record { kind = kind; d = d; values = []; mins = []; maxs = []; sums = [] }

pub read_channel-packed :
    (b d : ℕ) (vs : List ℕ)
    → All (λ v. v < 2 ^ b) vs
    → read_channel (length vs) (packed, d) b (field_bytes (plain b vs))
      ≡ record (no_channel packed d) { values = vs }
unfolding read_channel
read_channel-packed b d vs h =
    let fits = plain-Fits b vs h in
    rw
      (
        le_value-written (plain b vs) fits,
        take_values-Holds (pack_bits (plain b vs)) b 0 vs h (Holds-start (plain b vs)),
      )
      refl

pub read_channel-summary :
    (b r kind d : ℕ) (is : List Interval)
    → kind ≢ packed
    → length is ≡ intervals r d
    → All Fits (summaries kind d b is)
    → read_channel r (kind, d) b (field_bytes (summaries kind d b is))
      ≡ with_intervals is (no_channel kind d)
unfolding read_channel
read_channel-summary b r kind d is h n fits =
    let read =
      take_intervals-Holds (pack_bits (summaries kind d b is)) b 0 is (no_channel kind d) fits
        (Holds-start (summaries kind d b is)) in
    let other : (kind == packed) ≡ false = ground (arith, h) in
    rw (other, le_value-written (summaries kind d b is) fits, ← n) read
