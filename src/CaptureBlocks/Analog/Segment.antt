-- ===== src/CaptureBlocks/Analog/Segment.antt =====
-- Segments of analog blocks are read back as they were written.
use native.Mathlib.Nat.{div-eq-sub-div, div-eq_of_lt, mod-eq-sub-mod, mod-eq_of_lt}
use oep_client_python.Prelude.{
  subst, ℕ, zero, suc, ◌+◌, ◌-◌, ◌/◌, ◌%◌, ◌<◌, ◌≤◌, ◌≡◌, refl, sym, ap, ◌∙◌, inl, inr, Bool-cases,
  List, [], ◌∷◌, ◌++◌, arith, ltb, length, length-append, min, All,
}
use oep_client_python.Try.{ok}
use oep_client_python.Bytes.{Bytes}
use oep_client_python.CaptureBlocks.Analog.{
  Carriage, AnalogBlock, carriage_of, analog_block_bytes, analog_segment_bytes, read_channels,
  analog_loop, read_analog_blocks,
}
use oep_client_python.CaptureBlocks.Analog.Written.{
  Part, AreParts, roles_of, block_written, channels_of, part_written, part_written-IsPart,
  read_channels-block_written,
}

module _ (order : List ℕ) (carriage : List Carriage) (block b : ℕ) where
  -- Every D is above 0.
  abbrev pub HasIntervals : Type 0
  HasIntervals = All (λ how. 0 < how.2) carriage

  -- The parts of the blocks of the samples that are left.
  abbrev pub AreBlocks : ℕ → List (List (ℕ × Part)) → Type 0
  AreBlocks left [] = left ≡ 0
  AreBlocks left (parts ∷ blocks) =
      (0 < left)
      × (roles_of parts ≡ order)
      × AreParts (min block left) carriage b parts
      × AreBlocks (left - min block left) blocks

  abbrev pub segment_written : ℕ → List (List (ℕ × Part)) → Bytes
  segment_written left [] = []
  segment_written left (parts ∷ blocks) =
      block_written (min block left) carriage b parts
      ++ segment_written (left - min block left) blocks

  abbrev pub blocks_of : ℕ → ℕ → List (List (ℕ × Part)) → List AnalogBlock
  blocks_of first left [] = []
  blocks_of first left (parts ∷ blocks) =
      record {
        first = first;
        samples = min block left;
        channels = channels_of (min block left) carriage b parts;
      }
      ∷ blocks_of (first + block) (left - min block left) blocks

  length-block_written :
      (r : ℕ) (parts : List (ℕ × Part))
      → AreParts r carriage b parts
      → length (block_written r carriage b parts) ≡ analog_block_bytes r (roles_of parts) carriage b
  unfolding analog_block_bytes
  length-block_written r [] h = refl
  length-block_written r ((k, part) ∷ parts) h =
      let (size, _) = part_written-IsPart r (carriage_of k carriage) b part h.0 in
      length-append (part_written (carriage_of k carriage) b part)
        (block_written r carriage b parts)
      ∙ omega (arith, size, length-block_written r parts h.1)

  analog_loop-segment_written :
      (fuel first left : ℕ) (blocks : List (List (ℕ × Part)))
      → 0 < block
      → left ≤ fuel
      → AreBlocks left blocks
      → analog_loop fuel order carriage block b first left (segment_written left blocks)
        ≡ ok (blocks_of first left blocks)
  unfolding analog_loop
  analog_loop-segment_written fuel first left [] above le h = rw h refl
  analog_loop-segment_written fuel first zero (parts ∷ blocks) above le h =
      absurd (omega (arith, h.0))
  analog_loop-segment_written zero first (suc left) (parts ∷ blocks) above le h =
      absurd (omega (arith, le))
  analog_loop-segment_written (suc fuel) first (suc left) (parts ∷ blocks) above le h =
      let r = min block (suc left) in
      let (_, roles, are, rest) = h in
      let back = segment_written (suc left - r) blocks in
      let read : read_channels r order carriage b (block_written r carriage b parts ++ back)
          ≡ (channels_of r carriage b parts, back) =
        subst
          (λ o.
            read_channels r o carriage b (block_written r carriage b parts ++ back)
            ≡ (channels_of r carriage b parts, back))
          roles (read_channels-block_written r carriage b parts back are) in
      let later =
        analog_loop-segment_written fuel (first + block) (suc left - r) blocks above
          (omega (arith, above, le)) rest in
      rw (read, later) refl

  segment_bytes_short :
      (samples : ℕ)
      → 0 < samples
      → samples < block
      → analog_segment_bytes samples order carriage block b
        ≡ analog_block_bytes samples order carriage b
  unfolding analog_segment_bytes
  segment_bytes_short samples above lt =
      let q : samples / block ≡ 0 = div-eq_of_lt lt in
      let r : samples % block ≡ samples = mod-eq_of_lt lt in rw (q, r) (ground (arith, above))

  segment_bytes_more :
      (samples : ℕ)
      → 0 < block
      → block ≤ samples
      → analog_segment_bytes samples order carriage block b
        ≡ analog_block_bytes block order carriage b
          + analog_segment_bytes (samples - block) order carriage block b
  unfolding analog_segment_bytes
  segment_bytes_more samples above le =
      rw (div-eq-sub-div above le, mod-eq-sub-mod le) (omega arith)

  segment_bytes_none : 0 < block → analog_segment_bytes 0 order carriage block b ≡ 0
  unfolding analog_segment_bytes
  segment_bytes_none above =
      let q : 0 / block ≡ 0 = omega (arith, above) in
      let r : 0 % block ≡ 0 = mod-eq_of_lt above in rw (q, r) (omega arith)

  segment_bytes_step :
      (left : ℕ)
      → 0 < block
      → 0 < left
      → analog_segment_bytes left order carriage block b
        ≡ analog_block_bytes (min block left) order carriage b
          + analog_segment_bytes (left - min block left) order carriage block b
  segment_bytes_step left above more = elim (Bool-cases (ltb left block)) [
    | inl short ↦
        let m : min block left ≡ left = ground (arith, short) in
        let z : left - left ≡ 0 = omega arith in
        rw (m, z, segment_bytes_none above, segment_bytes_short left more (ground (arith, short)))
          (omega arith)
    | inr long ↦
        let m : min block left ≡ block = ground (arith, long) in
        rw m (segment_bytes_more left above (ground (arith, long)))
  ]

  length-segment_written :
      (left : ℕ) (blocks : List (List (ℕ × Part)))
      → 0 < block
      → AreBlocks left blocks
      → length (segment_written left blocks) ≡ analog_segment_bytes left order carriage block b
  length-segment_written left [] above h = rw h (sym (segment_bytes_none above))
  length-segment_written left (parts ∷ blocks) above h =
      let r = min block left in
      let (some_left, roles, are, rest) = h in
      let one : length (block_written r carriage b parts) ≡ analog_block_bytes r order carriage b =
        length-block_written r parts are ∙ ap (λ o. analog_block_bytes r o carriage b) roles in
      length-append (block_written r carriage b parts) (segment_written (left - r) blocks)
      ∙ omega (
        arith,
        one,
        length-segment_written (left - r) blocks above rest,
        segment_bytes_step left above some_left,
      )

  -- A segment of analog blocks that cut the samples into pieces of `block`, one at the least, and a shorter last one, each
  -- with the parts of the channels of `order`, written as it is read, is read back as these blocks: it has
  -- exactly the bytes that analog_segment_bytes computes, and every channel its values or its summaries. Every D
  -- is above 0.
  pub read_analog_blocks-segment_written :
      (samples : ℕ) (blocks : List (List (ℕ × Part)))
      → 0 < block
      → HasIntervals
      → AreBlocks samples blocks
      → read_analog_blocks (segment_written samples blocks) samples order carriage block b
        ≡ ok (blocks_of 0 samples blocks)
  unfolding read_analog_blocks
  read_analog_blocks-segment_written samples blocks above cut_up h =
      let size = length-segment_written samples blocks above h in
      let loop = analog_loop-segment_written samples 0 samples blocks above (omega arith) h in
      ground (arith, above, size, loop)
