-- ===== src/CaptureBlocks/Analog/Examples.antt =====
-- The theorem on analog blocks at a concrete input, and tests.
use oep_client_python.Prelude.{ℕ, ◌≡◌, refl, List, [], ◌∷◌, arith}
use oep_client_python.Try.{ok, raise, protocol_error}
use oep_client_python.CaptureBlocks.Analog.{
  Carriage, read_analog_blocks, analog_segment_bytes, carriage_of, bit_length,
}
use oep_client_python.CaptureBlocks.Logic.{intervals}
use oep_client_python.CaptureBlocks.Analog.Segment.{
  AreBlocks, segment_written, blocks_of, read_analog_blocks-segment_written,
}
use oep_client_python.CaptureBlocks.Analog.Written.{Part, values_of, intervals_of}

-- Role 5 as least, greatest and sum of 2 samples; role 3 packed.
abbrev some_carriage : List Carriage
some_carriage = (5, 6, 2) ∷ []

abbrev some_blocks : List (List (ℕ × Part))
some_blocks =
    ((3, values_of (9 ∷ 1 ∷ [])) ∷ (5, intervals_of ((2, 7, 9) ∷ [])) ∷ [])
    ∷ ((3, values_of (14 ∷ [])) ∷ (5, intervals_of ((3, 3, 3) ∷ [])) ∷ [])
    ∷ []

some_blocks-AreBlocks : AreBlocks (3 ∷ 5 ∷ []) some_carriage 2 4 3 some_blocks
unfolding carriage_of intervals bit_length
some_blocks-AreBlocks = ground arith

read_analog_blocks-segment_written_example :
    read_analog_blocks
      (segment_written (3 ∷ 5 ∷ []) some_carriage 2 4 3 some_blocks)
      3
      (3 ∷ 5 ∷ [])
      some_carriage
      2
      4
    ≡ ok (blocks_of (3 ∷ 5 ∷ []) some_carriage 2 4 0 3 some_blocks)
read_analog_blocks-segment_written_example =
    read_analog_blocks-segment_written (3 ∷ 5 ∷ []) some_carriage 2 4 3 some_blocks (omega arith)
      (omega arith) some_blocks-AreBlocks

some_segment_bytes : analog_segment_bytes 3 (3 ∷ 5 ∷ []) some_carriage 8 4 ≡ 6
unfolding analog_segment_bytes
some_segment_bytes = refl

too_short : read_analog_blocks (1 ∷ 2 ∷ []) 3 (3 ∷ 5 ∷ []) some_carriage 8 4 ≡ raise protocol_error
unfolding read_analog_blocks
too_short = refl
