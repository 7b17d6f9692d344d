-- ===== src/CaptureBlocks/Timed.antt =====
-- src/oep_client/capture_blocks.py: format 3, the timed states. A loop over data[pos:] takes that list, and
-- the samples still to read; its fuel is the list's length, and an entry takes at least 4 bytes of it.
pub mod Inverse
pub mod Agreement
use oep_client_python.Prelude.{
  ℕ, zero, suc, ◌+◌, ◌-◌, ◌/◌, ◌%◌, ◌^◌, List, [], ◌∷◌, ltb, ◌==◌, length, drop, not, if◌then◌else◌,
}
use oep_client_python.Try.{Try, ok, raise, protocol_error, loop_bound, ◌>>=◌}
use oep_client_python.Bytes.{Bytes, field}

abbrev pub escape : ℕ
escape = 0xffffffff

abbrev pub entry_size : ℕ → ℕ
entry_size w = 4 + (w + 7) / 8

-- int.from_bytes(data[pos:pos + 4]), and the state behind it: `& ((1 << w) - 1)` is `% 2 ^ w`.
unfoldable pub delta_of : Bytes → ℕ
delta_of bytes = field bytes 0 4

unfoldable pub state_of : ℕ → Bytes → ℕ
state_of w bytes = field bytes 4 ((w + 7) / 8) % 2 ^ w

-- The loop of `read_state_timed` from where it stands, and the check behind it.
unfoldable pub timed_loop : ℕ → ℕ → ℕ → ℕ → Bytes → Try (List (ℕ × ℕ))
timed_loop fuel w zero ticks [] = ok []
timed_loop fuel w zero ticks (b ∷ bytes) = raise protocol_error
timed_loop zero w (suc left) ticks bytes = raise loop_bound
timed_loop (suc fuel) w (suc left) ticks bytes =
    let now = ticks + delta_of bytes in
    let skip = timed_loop fuel w (suc left) now (drop (entry_size w) bytes) in
    let rest = timed_loop fuel w left now (drop (entry_size w) bytes) in
    if ltb (length bytes) (entry_size w)
    then raise protocol_error
    else if delta_of bytes == escape
    then skip
    else do out ← rest; ok ((now, state_of w bytes) ∷ out)

unfoldable pub read_state_timed : Bytes → ℕ → ℕ → Try (List (ℕ × ℕ))
unfolding timed_loop
read_state_timed bytes samples w = timed_loop (length bytes + 1) w samples 0 bytes

-- The loop of `state_timed_length`, from the bytes it has passed.
unfoldable pub length_loop : ℕ → ℕ → ℕ → ℕ → Bytes → Try ℕ
length_loop fuel w zero pos bytes = ok pos
length_loop zero w (suc left) pos bytes = raise loop_bound
length_loop (suc fuel) w (suc left) pos bytes =
    let skip = length_loop fuel w (suc left) (pos + entry_size w) (drop (entry_size w) bytes) in
    let rest = length_loop fuel w left (pos + entry_size w) (drop (entry_size w) bytes) in
    if ltb (length bytes) (entry_size w)
    then raise protocol_error
    else if delta_of bytes == escape
    then skip
    else rest

unfoldable pub state_timed_length : Bytes → ℕ → ℕ → Try ℕ
unfolding length_loop
state_timed_length bytes samples w = length_loop (length bytes + 1) w samples 0 bytes
