-- ===== src/CaptureBlocks/Examples.antt =====
-- Runs of the readers on concrete segments, and their theorems at concrete inputs.
use oep_client_python.Prelude.{ℕ, ◌≡◌, refl, none, List, [], ◌∷◌, arith, length}
use oep_client_python.Try.{ok, raise, protocol_error, index_error}
use oep_client_python.Bytes.{Bytes}
use oep_client_python.CaptureBlocks.Timed.{escape, delta_of, read_state_timed, state_timed_length}
use oep_client_python.CaptureBlocks.Timed.Inverse.{
  written, timeline, Fits, read_state_timed-written,
}
use oep_client_python.CaptureBlocks.Timed.Agreement.{
  IsTimeline, read_state_timed-state_timed_length,
}
use oep_client_python.CaptureBlocks.Logic.{
  Reduction, read_logic_blocks, bits_list, sorted_roles, sorted, read_block, read_raw, read_values,
  read_starts, uint, column, bit, digit, try_table, value_bits, intervals, block_bytes, start_bits,
  interval_bits,
}

abbrev entries : List (ℕ × ℕ)
entries = (5, 1) ∷ (escape, 0) ∷ (3, 2) ∷ []

abbrev timed_bytes : Bytes
timed_bytes = 5 ∷ 0 ∷ 0 ∷ 0 ∷ 1 ∷ 255 ∷ 255 ∷ 255 ∷ 255 ∷ 0 ∷ 3 ∷ 0 ∷ 0 ∷ 0 ∷ 2 ∷ []

entries_on_the_wire : written 2 entries ≡ timed_bytes
unfolding written
entries_on_the_wire = refl

entries-Fits : Fits 2 entries
unfolding Fits
entries-Fits = (
  omega arith,
  omega arith,
  λ e. cc (e),
  (
    omega arith,
    omega arith,
    λ e. cc (e),
    (omega arith, omega arith, λ e f. absurd (omega (arith, f)), tt),
  ),
)

read_state_timed-written_example :
    read_state_timed (written 2 entries) (length (timeline 0 entries)) 2 ≡ ok (timeline 0 entries)
read_state_timed-written_example = read_state_timed-written 2 entries entries-Fits

read_state_timed-state_timed_length_example :
    ((state_timed_length timed_bytes 2 2 ≡ ok 15)
      → (out : List (ℕ × ℕ)) × (read_state_timed timed_bytes 2 2 ≡ ok out))
    × ((out : List (ℕ × ℕ))
        → read_state_timed timed_bytes 2 2 ≡ ok out
        → (state_timed_length timed_bytes 2 2 ≡ ok 15) × (length out ≡ 2) × IsTimeline 2 0 out)
read_state_timed-state_timed_length_example = read_state_timed-state_timed_length timed_bytes 2 2

too_long : read_state_timed timed_bytes 1 2 ≡ raise protocol_error
unfolding read_state_timed delta_of
too_long = refl

length_of_first : state_timed_length timed_bytes 1 2 ≡ ok 5
unfolding state_timed_length delta_of
length_of_first = refl

-- Two raw channels, a change_latch over 2 samples, blocks of 4 samples.
abbrev latched : List Reduction
latched = (7, (4, 2)) ∷ []

abbrev logic_bytes : Bytes
logic_bytes = 0b11011000 ∷ 0b10110 ∷ 0b01 ∷ 0b111 ∷ []

two_blocks :
    read_logic_blocks logic_bytes 5 (3 ∷ 1 ∷ []) latched 4 none none
    ≡ ok (
        (record {
          first = 0;
          samples = 4;
          raw = (1, 0b1100 ∷ []) ∷ (3, 0b1010 ∷ []) ∷ [];
          values = (7, 3 ∷ 2 ∷ []) ∷ [];
          starts = (7, 0) ∷ [];
        })
        ∷ (record {
          first = 4;
          samples = 1;
          raw = (1, 1 ∷ []) ∷ (3, 0 ∷ []) ∷ [];
          values = (7, 3 ∷ []) ∷ [];
          starts = (7, 1) ∷ [];
        })
        ∷ [])
unfolding read_logic_blocks sorted_roles sorted read_block read_raw read_values read_starts uint
    column bit digit try_table value_bits intervals block_bytes start_bits interval_bits
two_blocks = refl

levels : bits_list (0b1010 ∷ []) 4 ≡ ok (0 ∷ 1 ∷ 0 ∷ 1 ∷ [])
unfolding bits_list bit try_table
levels = refl

past_the_end : bits_list (0b1010 ∷ []) 9 ≡ raise index_error
unfolding bits_list bit try_table
past_the_end = refl
