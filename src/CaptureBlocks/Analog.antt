-- ===== src/CaptureBlocks/Analog.antt =====
-- src/oep_client/capture_blocks.py: format 2, the analog blocks. A channel's interval is one sample at the
-- least; a block of no samples is Python's ZeroDivisionError.
pub mod Inverse
pub mod Written
pub mod Segment
mod Examples
use oep_client_python.Prelude.{
  ℕ, zero, suc, ◌+◌, ◌-◌, ◌*◌, ◌/◌, ◌%◌, ◌^◌, ◌<◌, ◌≤◌, Bool, true, false, not, ◌&&◌, List, [], ◌∷◌,
  ◌++◌, min, ltb, ◌==◌, length, take, drop, bit_and, if◌then◌else◌,
}
use oep_client_python.Try.{Try, ok, raise, protocol_error, zero_division_error, loop_bound, ◌>>=◌}
use oep_client_python.Bytes.{Bytes, le_value}
use oep_client_python.CaptureBlocks.Logic.{intervals}

-- PACKED, MINMAX, SUM
abbrev pub packed : ℕ
packed = 1

abbrev pub minmax : ℕ
minmax = 2

abbrev pub sum : ℕ
sum = 4

-- role, kind, d
abbrev pub Carriage : Type 0
Carriage = ℕ × ℕ × ℕ

pub record AnalogChannel : Type 0 where
  pub kind : ℕ
  pub d : ℕ
  pub values : List ℕ
  pub mins : List ℕ
  pub maxs : List ℕ
  pub sums : List ℕ

pub record AnalogBlock : Type 0 where
  pub first : ℕ
  pub samples : ℕ
  pub channels : List (ℕ × AnalogChannel)

-- carriage.get(k, (PACKED, 1))
unfoldable pub carriage_of : ℕ → List Carriage → ℕ × ℕ
carriage_of k [] = (packed, 1)
carriage_of k ((role, kind, d) ∷ carriage) = if role == k then (kind, d) else carriage_of k carriage

-- n.bit_length(), of a number that `fuel` halvings take to 0
unfoldable pub bit_length_loop : ℕ → ℕ → ℕ
bit_length_loop zero n = 0
bit_length_loop (suc fuel) n =
    let rest = bit_length_loop fuel (n / 2) in if n == 0 then 0 else rest + 1

unfoldable pub bit_length : ℕ → ℕ
unfolding bit_length_loop
bit_length n = bit_length_loop n n

abbrev pub has_bit : ℕ → ℕ → Bool
has_bit kind b = not (bit_and kind b == 0)

unfoldable pub interval_size : ℕ → ℕ → ℕ → ℕ
unfolding bit_length
interval_size kind d b =
    (if has_bit kind minmax then 2 * b else 0)
    + (if has_bit kind sum then b + bit_length (d - 1) else 0)

unfoldable pub part_bits : ℕ → ℕ → ℕ → ℕ → ℕ
unfolding interval_size intervals
part_bits r kind d b = if kind == packed then r * b else intervals r d * interval_size kind d b

abbrev pub part_bytes : ℕ → ℕ × ℕ → ℕ → ℕ
part_bytes r (kind, d) b = (part_bits r kind d b + 7) / 8

unfoldable pub analog_block_bytes : ℕ → List ℕ → List Carriage → ℕ → ℕ
unfolding part_bits carriage_of
analog_block_bytes r [] carriage b = 0
analog_block_bytes r (k ∷ order) carriage b =
    part_bytes r (carriage_of k carriage) b + analog_block_bytes r order carriage b

unfoldable pub analog_segment_bytes : ℕ → List ℕ → List Carriage → ℕ → ℕ → ℕ
unfolding analog_block_bytes
analog_segment_bytes samples order carriage block b =
    samples / block * analog_block_bytes block order carriage b
    + (if samples % block == 0 then 0 else analog_block_bytes (samples % block) order carriage b)

-- take(bits): the value, with `at` after it
abbrev pub take_bits : ℕ → ℕ → ℕ → ℕ × ℕ
take_bits acc bits at = (acc / 2 ^ at % 2 ^ bits, at + bits)

-- [take(b) for _ in range(n)]
unfoldable pub take_values : ℕ → ℕ → ℕ → ℕ → List ℕ
take_values acc b zero at = []
take_values acc b (suc n) at = let (v, at') = take_bits acc b at in v ∷ take_values acc b n at'

-- The loop over the intervals, the channel so far its last argument.
unfoldable pub take_intervals : ℕ → ℕ → ℕ → ℕ → AnalogChannel → AnalogChannel
unfolding bit_length
take_intervals acc b zero at c = c
take_intervals acc b (suc n) at c =
    let (low, at1) = take_bits acc b at in
    let (high, at2) = take_bits acc b at1 in
    let c1 =
      if has_bit c.kind minmax
      then record c { mins = c.mins ++ (low ∷ []); maxs = c.maxs ++ (high ∷ []) }
      else c in
    let at3 = if has_bit c.kind minmax then at2 else at in
    let (total, at4) = take_bits acc (b + bit_length (c.d - 1)) at3 in
    let c2 = if has_bit c.kind sum then record c1 { sums = c1.sums ++ (total ∷ []) } else c1 in
    take_intervals acc b n (if has_bit c.kind sum then at4 else at3) c2

-- One channel of a block, from its bytes.
unfoldable pub read_channel : ℕ → ℕ × ℕ → ℕ → Bytes → AnalogChannel
unfolding take_values take_intervals intervals
read_channel r (kind, d) b bytes =
    let acc = le_value bytes in
    let c : AnalogChannel = record {
      kind = kind;
      d = d;
      values = [];
      mins = [];
      maxs = [];
      sums = [];
    } in
    if kind == packed
    then record c { values = take_values acc b r 0 }
    else take_intervals acc b (intervals r d) 0 c

-- The channels of a block, and the bytes that are left; `order` names a channel once.
unfoldable pub read_channels :
    ℕ → List ℕ → List Carriage → ℕ → Bytes → List (ℕ × AnalogChannel) × Bytes
unfolding read_channel carriage_of
read_channels r [] carriage b bytes = ([], bytes)
read_channels r (k ∷ order) carriage b bytes =
    let how = carriage_of k carriage in
    let size = part_bytes r how b in
    let (channels, rest) = read_channels r order carriage b (drop size bytes) in
    ((k, read_channel r how b (take size bytes)) ∷ channels, rest)

-- for first in range(0, samples, block); `left` is what is left of the samples.
unfoldable pub analog_loop :
    ℕ → List ℕ → List Carriage → ℕ → ℕ → ℕ → ℕ → Bytes → Try (List AnalogBlock)
unfolding read_channels
analog_loop fuel order carriage block b first zero bytes = ok []
analog_loop zero order carriage block b first (suc left) bytes = raise loop_bound
analog_loop (suc fuel) order carriage block b first (suc left) bytes =
    let r = min block (suc left) in
    let (channels, rest) = read_channels r order carriage b bytes in
    do
      blocks ← analog_loop fuel order carriage block b (first + block) (suc left - r) rest
      ok (record { first = first; samples = r; channels = channels } ∷ blocks)

unfoldable pub read_analog_blocks :
    Bytes → ℕ → List ℕ → List Carriage → ℕ → ℕ → Try (List AnalogBlock)
unfolding analog_loop analog_segment_bytes
read_analog_blocks bytes samples order carriage block b =
    if block == 0
    then raise zero_division_error
    else if not (length bytes == analog_segment_bytes samples order carriage block b)
    then raise protocol_error
    else analog_loop samples order carriage block b 0 samples bytes
