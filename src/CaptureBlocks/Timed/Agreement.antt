-- ===== src/CaptureBlocks/Timed/Agreement.antt =====
-- What a timed segment that is read holds, and that the two loops over its entries agree.
use oep_client_python.Prelude.{
  ℕ, zero, suc, ◌+◌, ◌^◌, ◌<◌, ◌≤◌, ◌≡◌, ◌⊎◌, inl, inr, refl, ap, ◌∙◌, true, false, List, [], ◌∷◌,
  arith, ltb, ◌==◌, length, drop, Bool-cases, length-drop,
}
use native.Mathlib.Nat.{one-le-pow}
use oep_client_python.Try.{Error, ok, raise, protocol_error, Try-cases}
use oep_client_python.Bytes.{Bytes}
use oep_client_python.CaptureBlocks.Timed.{
  escape, entry_size, delta_of, state_of, timed_loop, read_state_timed, length_loop,
  state_timed_length,
}

-- The samples' ticks never go back, none is before `from`, and every state has w bits.
unfoldable pub IsTimeline : ℕ → ℕ → List (ℕ × ℕ) → Type 0
IsTimeline w from [] = Unit
IsTimeline w from ((ticks, state) ∷ out) = (from ≤ ticks) × (state < 2 ^ w) × IsTimeline w ticks out

IsTimeline-later :
    (w from by : ℕ) (out : List (ℕ × ℕ)) → IsTimeline w (from + by) out → IsTimeline w from out
unfolding IsTimeline
IsTimeline-later w from by [] h = tt
IsTimeline-later w from by ((t, s) ∷ out) (le, lt, h) = (omega (arith, le), lt, h)

state_of-lt : (w : ℕ) (bytes : Bytes) → state_of w bytes < 2 ^ w
unfolding state_of
state_of-lt w bytes = omega (arith, one-le-pow w 2 (omega arith))

-- The two ways an entry is read.
entry_cases :
    (fuel w left ticks : ℕ) (bytes : Bytes) (out : List (ℕ × ℕ))
    → timed_loop (suc fuel) w (suc left) ticks bytes ≡ ok out
    → (entry_size w ≤ length bytes)
      × (((delta_of bytes == escape) ≡ true)
            × (timed_loop fuel w (suc left) (ticks + delta_of bytes) (drop (entry_size w) bytes)
                ≡ ok out)
          ⊎ ((delta_of bytes == escape) ≡ false)
            × ((rest : List (ℕ × ℕ)) × (timed_loop fuel w left
                    (ticks + delta_of bytes)
                    (drop (entry_size w) bytes)
                  ≡ ok rest)
                × (out ≡ (ticks + delta_of bytes, state_of w bytes) ∷ rest)))
unfolding timed_loop
entry_cases fuel w left ticks bytes out h = elim (Bool-cases (ltb (length bytes) (entry_size w))) [
  | inl short ↦ cc (h, short)
  | inr long ↦ elim (Bool-cases (delta_of bytes == escape)) [
    | inl e ↦ (ground (arith, long), inl (e, ground (arith, h, long, e)))
    | inr e ↦
        elim (Try-cases
          (timed_loop fuel w left (ticks + delta_of bytes) (drop (entry_size w) bytes))) [
            | inl (rest, read) ↦
                (ground (arith, long), inr (e, (rest, read, ground (arith, h, long, e, read))))
            | inr (error, read) ↦ ground (arith, h, long, e, read)
          ]
  ]
]

timed_loop_sound :
    (fuel w left ticks : ℕ) (bytes : Bytes) (out : List (ℕ × ℕ))
    → timed_loop fuel w left ticks bytes ≡ ok out
    → (length out ≡ left) × IsTimeline w ticks out
unfolding timed_loop IsTimeline
timed_loop_sound fuel w zero ticks [] out h = ground (arith, h)
timed_loop_sound fuel w zero ticks (b ∷ bytes) out h = cc (h)
timed_loop_sound zero w (suc left) ticks bytes out h = cc (h)
timed_loop_sound (suc fuel) w (suc left) ticks bytes out h =
    let (le, cases) = entry_cases fuel w left ticks bytes out h in
    let now = ticks + delta_of bytes in
    let after = drop (entry_size w) bytes in
    elim cases [
      | inl (e, skip) ↦
          let (n, line) = timed_loop_sound fuel w (suc left) now after out skip in
          (n, IsTimeline-later w ticks (delta_of bytes) out line)
      | inr (e, (rest, read, here)) ↦
          let (n, line) = timed_loop_sound fuel w left now after rest read in
          (ground (arith, here, n), rw here (omega arith, state_of-lt w bytes, line))
    ]

length_loop_bounds :
    (fuel w left pos : ℕ) (bytes : Bytes) (end : ℕ)
    → length_loop fuel w left pos bytes ≡ ok end
    → (pos ≤ end) × (end ≤ pos + length bytes)
unfolding length_loop
length_loop_bounds fuel w zero pos bytes end h = ground (arith, h)
length_loop_bounds zero w (suc left) pos bytes end h = cc (h)
length_loop_bounds (suc fuel) w (suc left) pos bytes end h = ground (
  arith,
  h,
  length-drop (entry_size w) bytes,
  length_loop_bounds fuel w left (pos + entry_size w) (drop (entry_size w) bytes) end,
  length_loop_bounds fuel w (suc left) (pos + entry_size w) (drop (entry_size w) bytes) end,
)

-- A segment is read just when its entries end where its bytes end.
loops_agree :
    (fuel w left ticks pos : ℕ) (bytes : Bytes) (out : List (ℕ × ℕ))
    → timed_loop fuel w left ticks bytes ≡ ok out
    → length_loop fuel w left pos bytes ≡ ok (pos + length bytes)
unfolding timed_loop length_loop
loops_agree fuel w zero ticks pos [] out h = ground arith
loops_agree fuel w zero ticks pos (b ∷ bytes) out h = cc (h)
loops_agree zero w (suc left) ticks pos bytes out h = cc (h)
loops_agree (suc fuel) w (suc left) ticks pos bytes out h =
    let (le, cases) = entry_cases fuel w left ticks bytes out h in
    let now = ticks + delta_of bytes in
    let after = drop (entry_size w) bytes in
    let e : pos + entry_size w + length after ≡ pos + length bytes =
      omega (arith, le, length-drop (entry_size w) bytes) in
    elim cases [
      | inl (is, skip) ↦
          let ih = loops_agree fuel w (suc left) now (pos + entry_size w) after out skip in
          ground (arith, is, ih, le, e)
      | inr (is, (rest, read, here)) ↦
          let ih = loops_agree fuel w left now (pos + entry_size w) after rest read in
          ground (arith, is, ih, le, e)
    ]

loops_agree_back :
    (fuel w left ticks pos : ℕ) (bytes : Bytes)
    → length_loop fuel w left pos bytes ≡ ok (pos + length bytes)
    → (out : List (ℕ × ℕ)) × (timed_loop fuel w left ticks bytes ≡ ok out)
unfolding timed_loop length_loop
loops_agree_back fuel w zero ticks pos [] h = ([], refl)
loops_agree_back fuel w zero ticks pos (b ∷ bytes) h = ground (arith, h)
loops_agree_back zero w (suc left) ticks pos bytes h = cc (h)
loops_agree_back (suc fuel) w (suc left) ticks pos bytes h =
    let now = ticks + delta_of bytes in
    let after = drop (entry_size w) bytes in
    elim (Bool-cases (ltb (length bytes) (entry_size w))) [
      | inl short ↦ cc (h, short)
      | inr long ↦
          let le : entry_size w ≤ length bytes = ground (arith, long) in
          let e : pos + entry_size w + length after ≡ pos + length bytes =
            omega (arith, le, length-drop (entry_size w) bytes) in
          elim (Bool-cases (delta_of bytes == escape)) [
            | inl is ↦
                let (out, read) =
                  loops_agree_back fuel w (suc left) now (pos + entry_size w) after
                    (ground (arith, h, long, is, e)) in
                (out, ground (arith, long, is, read))
            | inr is ↦
                let (out, read) =
                  loops_agree_back fuel w left now (pos + entry_size w) after
                    (ground (arith, h, long, is, e)) in
                ((now, state_of w bytes) ∷ out, ground (arith, long, is, read))
          ]
    ]

-- A timed segment is read just when `state_timed_length` is the length of its bytes; then there is one pair
-- for each sample, the ticks never go back, and every state has w bits.
pub read_state_timed-state_timed_length :
    (bytes : Bytes) (samples w : ℕ)
    → ((state_timed_length bytes samples w ≡ ok (length bytes))
        → (out : List (ℕ × ℕ)) × (read_state_timed bytes samples w ≡ ok out))
      × ((out : List (ℕ × ℕ))
          → read_state_timed bytes samples w ≡ ok out
          → (state_timed_length bytes samples w ≡ ok (length bytes))
            × (length out ≡ samples)
            × IsTimeline w 0 out)
unfolding read_state_timed state_timed_length
read_state_timed-state_timed_length bytes samples w = (
  λ h. loops_agree_back (length bytes + 1) w samples 0 0 bytes (h ∙ ap ok (omega arith)),
  λ out h.
      let (n, line) = timed_loop_sound (length bytes + 1) w samples 0 bytes out h in
      (loops_agree (length bytes + 1) w samples 0 0 bytes out h ∙ ap ok (omega arith), n, line),
)

timed_loop-raises :
    (fuel w left ticks : ℕ) (bytes : Bytes) (e : Error)
    → length bytes < fuel
    → timed_loop fuel w left ticks bytes ≡ raise e
    → e ≡ protocol_error
unfolding timed_loop
timed_loop-raises fuel w zero ticks [] e lt h = cc (h)
timed_loop-raises fuel w zero ticks (b ∷ bytes) e lt h = ground (arith, h)
timed_loop-raises zero w (suc left) ticks bytes e lt h = absurd (omega (arith, lt))
timed_loop-raises (suc fuel) w (suc left) ticks bytes e lt h =
    let now = ticks + delta_of bytes in
    let after = drop (entry_size w) bytes in
    let shorter = length-drop (entry_size w) bytes in
    let skip = timed_loop-raises fuel w (suc left) now after e in
    let rest = timed_loop-raises fuel w left now after e in
    elim (Try-cases (timed_loop fuel w left now after)) [
      | inl (out, read) ↦ ground (arith, h, read, skip, lt, shorter)
      | inr (error, read) ↦ ground (arith, h, read, skip, rest, lt, shorter)
    ]

-- Reading a timed segment ends: the loop's fuel is enough for any bytes, and where it raises, it raises
-- ProtocolError.
pub read_state_timed-raises :
    (bytes : Bytes) (samples w : ℕ) (e : Error)
    → read_state_timed bytes samples w ≡ raise e
    → e ≡ protocol_error
unfolding read_state_timed
read_state_timed-raises bytes samples w e h =
    timed_loop-raises (length bytes + 1) w samples 0 bytes e (omega arith) h
