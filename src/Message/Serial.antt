-- ===== src/Message/Serial.antt =====
-- src/oep_client/message.py: numbers that wrap (serials of 32 bits, sequence numbers of 16), the
-- elements lost between two pages, and where a page of a list paged by serial starts.
pub mod Distance
pub mod Page
use oep_client_python.Prelude.{
  ℕ, zero, suc, ◌+◌, ◌-◌, ◌%◌, ◌^◌, Bool, true, false, not, ◌&&◌, ◌||◌, Option, none, some, List,
  [], ◌∷◌, ltb, leb, ◌==◌, length, if◌then◌else◌, ℤ, pos, negsuc,
}

-- (a - b) & ((1 << bits) - 1)
unfoldable pub wrapped_diff : ℕ → ℕ → ℕ → ℕ
wrapped_diff a b bits = (a % 2 ^ bits + 2 ^ bits - b % 2 ^ bits) % 2 ^ bits

-- `d >> (bits - 1)` is not 0 where d is at least half the space; `bits` is 1 or more.
unfoldable pub serial_diff : ℕ → ℕ → ℕ → ℤ
unfolding wrapped_diff
serial_diff a b bits =
    let d = wrapped_diff a b bits in
    if leb (2 ^ (bits - 1)) d then negsuc (2 ^ bits - d - 1) else pos d

-- The test 0 < d < 1 << (bits - 2), and d - 1.
unfoldable pub forward_gap : ℤ → ℕ → Option ℕ
forward_gap (pos d) bits = if ltb 0 d && ltb d (2 ^ (bits - 2)) then some (d - 1) else none
forward_gap (negsuc d) bits = none

unfoldable pub serials_lost : Option ℕ → ℕ → Bool → ℕ → Option ℕ
unfolding forward_gap serial_diff
serials_lost none first same_stream bits = none
serials_lost (some last) first same_stream bits =
    if not same_stream then none else forward_gap (serial_diff first last bits) bits

-- list.index; none is ValueError.
unfoldable pub index : List ℕ → ℕ → Option ℕ
index [] x = none
index (y ∷ ys) x =
    if y == x then some 0 else (elim (index ys x) [ none ↦ none | some i ↦ some (suc i) ])

unfoldable pub serial_page_start : List ℕ → ℕ → ℕ → ℕ
unfolding index
serial_page_start kept next_serial from_serial =
    if from_serial == next_serial || length kept == 0
    then length kept
    else (elim (index kept from_serial) [ none ↦ 0 | some i ↦ i ])
