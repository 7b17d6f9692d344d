-- ===== src/CaptureBlocks/Logic/Sizes.antt =====
-- The sizes of logic blocks: a round of the loop takes its share of the segment's bytes, and the order of
-- the channels does not change a size.
use native.Mathlib.Nat.{div-eq-sub-div, div-eq_of_lt, mod-eq-sub-mod, mod-eq_of_lt}
use oep_client_python.Prelude.{
  ℕ, ◌+◌, ◌-◌, ◌/◌, ◌%◌, ◌<◌, ◌≤◌, ◌≡◌, ◌∙◌, refl, inl, inr, List, [], ◌∷◌, arith, ltb, min,
  Bool-cases,
}
use oep_client_python.CaptureBlocks.Logic.{
  Reduction, start_bits, interval_bits, block_bytes, segment_bytes, insert, sorted,
}

segment_bytes_short :
    (samples block w : ℕ) (reduced : List Reduction)
    → 0 < samples
    → samples < block
    → segment_bytes samples reduced block w ≡ block_bytes reduced samples w
unfolding segment_bytes
segment_bytes_short samples block w reduced above lt =
    let q : samples / block ≡ 0 = div-eq_of_lt lt in
    let r : samples % block ≡ samples = mod-eq_of_lt lt in rw (q, r) (ground (arith, above))

segment_bytes_more :
    (samples block w : ℕ) (reduced : List Reduction)
    → 0 < block
    → block ≤ samples
    → segment_bytes samples reduced block w
      ≡ block_bytes reduced block w + segment_bytes (samples - block) reduced block w
unfolding segment_bytes
segment_bytes_more samples block w reduced above le =
    rw (div-eq-sub-div above le, mod-eq-sub-mod le) (omega arith)

pub segment_bytes_none :
    (block w : ℕ) (reduced : List Reduction) → 0 < block → segment_bytes 0 reduced block w ≡ 0
unfolding segment_bytes
segment_bytes_none block w reduced above =
    let q : 0 / block ≡ 0 = omega (arith, above) in
    let r : 0 % block ≡ 0 = mod-eq_of_lt above in rw (q, r) (omega arith)

-- A round of the loop takes the block's share of the segment's bytes.
pub segment_bytes-block_bytes :
    (left block w : ℕ) (reduced : List Reduction)
    → 0 < block
    → 0 < left
    → segment_bytes left reduced block w
      ≡ block_bytes reduced (min block left) w
        + segment_bytes (left - min block left) reduced block w
segment_bytes-block_bytes left block w reduced above more = elim (Bool-cases (ltb left block)) [
  | inl short ↦
      let m : min block left ≡ left = ground (arith, short) in
      let z : left - left ≡ 0 = omega arith in
      rw
        (
          m,
          z,
          segment_bytes_none block w reduced above,
          segment_bytes_short left block w reduced more (ground (arith, short)),
        )
        (omega arith)
  | inr long ↦
      let m : min block left ≡ block = ground (arith, long) in
      rw m (segment_bytes_more left block w reduced above (ground (arith, long)))
]

start_bits-insert :
    (row : Reduction) (rows : List Reduction)
    → start_bits (insert row rows) ≡ start_bits (row ∷ rows)
unfolding start_bits insert
start_bits-insert (k, (kind, d)) [] = refl
start_bits-insert (k, (kind, d)) ((j, (other, e)) ∷ rows) =
    ground (arith, start_bits-insert (k, (kind, d)) rows)

interval_bits-insert :
    (r : ℕ) (row : Reduction) (rows : List Reduction)
    → interval_bits r (insert row rows) ≡ interval_bits r (row ∷ rows)
unfolding interval_bits insert
interval_bits-insert r (k, (kind, d)) [] = refl
interval_bits-insert r (k, (kind, d)) ((j, (other, e)) ∷ rows) =
    ground (arith, interval_bits-insert r (k, (kind, d)) rows)

start_bits-sorted : (rows : List Reduction) → start_bits (sorted rows) ≡ start_bits rows
unfolding sorted start_bits
start_bits-sorted [] = refl
start_bits-sorted ((k, (kind, d)) ∷ rows) =
    start_bits-insert (k, (kind, d)) (sorted rows) ∙ omega (arith, start_bits-sorted rows)

interval_bits-sorted :
    (r : ℕ) (rows : List Reduction) → interval_bits r (sorted rows) ≡ interval_bits r rows
unfolding sorted interval_bits
interval_bits-sorted r [] = refl
interval_bits-sorted r ((k, (kind, d)) ∷ rows) =
    interval_bits-insert r (k, (kind, d)) (sorted rows) ∙ omega (arith, interval_bits-sorted r rows)

block_bytes-sorted :
    (rows : List Reduction) (r w : ℕ) → block_bytes (sorted rows) r w ≡ block_bytes rows r w
unfolding block_bytes
block_bytes-sorted rows r w = rw (start_bits-sorted rows, interval_bits-sorted r rows) refl

pub segment_bytes-sorted :
    (samples : ℕ) (rows : List Reduction) (block w : ℕ)
    → segment_bytes samples (sorted rows) block w ≡ segment_bytes samples rows block w
unfolding segment_bytes
segment_bytes-sorted samples rows block w =
    rw (block_bytes-sorted rows block w, block_bytes-sorted rows (samples % block) w) refl
