-- ===== src/CaptureBlocks/Timed/Inverse.antt =====
-- A segment of timed states that is written entry by entry is read back.
use native.Mathlib.Nat.{pow-suc, mod-eq_of_lt, pow-le-pow_right}
use oep_client_python.Prelude.{
  ℕ, zero, suc, ◌+◌, ◌*◌, ◌/◌, ◌^◌, ◌<◌, ◌≤◌, ◌≡◌, ◌≢◌, inl, inr, refl, true, false, List, [], ◌∷◌,
  ◌++◌, arith, ◌==◌, length, drop, Bool-cases, length-append, if◌then◌else◌,
}
use oep_client_python.Try.{ok}
use oep_client_python.Bytes.{Bytes, le_bytes, length-le_bytes, field-le_bytes, drop-le_bytes}
use oep_client_python.CaptureBlocks.Timed.{
  escape, entry_size, delta_of, state_of, timed_loop, read_state_timed,
}

-- The entries on the wire, each its delta and its state; an escape's state is no sample.
unfoldable pub written : ℕ → List (ℕ × ℕ) → Bytes
written w [] = []
written w ((delta, state) ∷ entries) =
    le_bytes 4 delta ++ (le_bytes ((w + 7) / 8) state ++ written w entries)

-- The samples the entries stand for, from the ticks before them.
unfoldable pub timeline : ℕ → List (ℕ × ℕ) → List (ℕ × ℕ)
timeline ticks [] = []
timeline ticks ((delta, state) ∷ entries) =
    let rest = timeline (ticks + delta) entries in
    if delta == escape then rest else (ticks + delta, state) ∷ rest

-- Deltas of 32 bits, states of w bits, and no escape behind the last sample.
unfoldable pub Fits : ℕ → List (ℕ × ℕ) → Type 0
Fits w [] = Unit
Fits w ((delta, state) ∷ entries) =
    (delta < 2 ^ 32) × (state < 2 ^ w) × (entries ≡ [] → delta ≢ escape) × Fits w entries

timeline_some :
    (w ticks : ℕ) (entries : List (ℕ × ℕ))
    → entries ≢ []
    → Fits w entries
    → (k : ℕ) × (length (timeline ticks entries) ≡ suc k)
unfolding timeline Fits
timeline_some w ticks [] some fits = absurd (some refl)
timeline_some w ticks ((delta, state) ∷ entries) some (d, s, last, fits) =
    elim (Bool-cases (delta == escape)) [
      | inl is ↦
          let (k, e) =
            timeline_some w (ticks + delta) entries (λ none. last none (ground (arith, is))) fits in
          (k, ground (arith, is, e))
      | inr not_one ↦ (length (timeline (ticks + delta) entries), ground (arith, not_one))
    ]

pow_256 : (k : ℕ) → 256 ^ k ≡ 2 ^ (8 * k)
pow_256 zero = refl
pow_256 (suc k) =
    let e : 8 * suc k ≡ suc (suc (suc (suc (suc (suc (suc (suc (8 * k)))))))) = omega arith in
    rw (e, pow-suc 256 k, pow_256 k)
      (omega (
        arith,
        pow-suc 2 (suc (suc (suc (suc (suc (suc (suc (8 * k)))))))),
        pow-suc 2 (suc (suc (suc (suc (suc (suc (8 * k))))))),
        pow-suc 2 (suc (suc (suc (suc (suc (8 * k)))))),
        pow-suc 2 (suc (suc (suc (suc (8 * k))))),
        pow-suc 2 (suc (suc (suc (8 * k)))),
        pow-suc 2 (suc (suc (8 * k))),
        pow-suc 2 (suc (8 * k)),
        pow-suc 2 (8 * k),
      ))

pub state_room : (w state : ℕ) → state < 2 ^ w → state < 256 ^ ((w + 7) / 8)
state_room w state h =
    let room : w ≤ 8 * ((w + 7) / 8) = omega arith in
    let le : 2 ^ w ≤ 2 ^ (8 * ((w + 7) / 8)) = pow-le-pow_right (omega arith) room in
    rw (pow_256 ((w + 7) / 8)) (omega (arith, h, le))

delta_of-entry :
    (w delta : ℕ) (more : Bytes) → delta < 2 ^ 32 → delta_of (le_bytes 4 delta ++ more) ≡ delta
unfolding delta_of
delta_of-entry w delta more h = field-le_bytes 4 delta more h

state_of-entry :
    (w delta state : ℕ) (more : Bytes)
    → state < 2 ^ w
    → state_of w (le_bytes 4 delta ++ (le_bytes ((w + 7) / 8) state ++ more)) ≡ state
unfolding state_of
state_of-entry w delta state more h =
    rw (field-le_bytes ((w + 7) / 8) state more (state_room w state h)) (mod-eq_of_lt h)

drop-entry :
    (w delta state : ℕ) (more : Bytes)
    → drop (entry_size w) (le_bytes 4 delta ++ (le_bytes ((w + 7) / 8) state ++ more)) ≡ more
drop-entry w delta state more =
    let e : entry_size w ≡ suc (suc (suc (suc ((w + 7) / 8)))) = omega arith in
    rw e (drop-le_bytes ((w + 7) / 8) state more)

timed_loop-entry :
    (fuel w left ticks : ℕ) (bytes : Bytes) (delta state : ℕ) (after : Bytes) (out : List (ℕ × ℕ))
    → entry_size w ≤ length bytes
    → delta_of bytes ≡ delta
    → state_of w bytes ≡ state
    → drop (entry_size w) bytes ≡ after
    → (((delta == escape) ≡ true)
        → timed_loop fuel w (suc left) (ticks + delta) after ≡ ok out
        → timed_loop (suc fuel) w (suc left) ticks bytes ≡ ok out)
      × (((delta == escape) ≡ false)
          → timed_loop fuel w left (ticks + delta) after ≡ ok out
          → timed_loop (suc fuel) w (suc left) ticks bytes ≡ ok ((ticks + delta, state) ∷ out))
unfolding timed_loop
timed_loop-entry fuel w left ticks bytes delta state after out le d s a =
    (λ is h. ground (arith, le, d, s, a, is, h), λ other h. ground (arith, le, d, s, a, other, h))

timed_loop-none : (fuel w ticks : ℕ) → timed_loop fuel w 0 ticks [] ≡ ok []
unfolding timed_loop
timed_loop-none fuel w ticks = refl

length-entry :
    (w delta state : ℕ) (more : Bytes)
    → length (le_bytes 4 delta ++ (le_bytes ((w + 7) / 8) state ++ more))
      ≡ entry_size w + length more
length-entry w delta state more =
    let e = length-append (le_bytes ((w + 7) / 8) state) more in
    let k = length-le_bytes ((w + 7) / 8) state in omega (arith, e, k)

timed_loop-written :
    (fuel w ticks : ℕ) (entries : List (ℕ × ℕ))
    → Fits w entries
    → length (written w entries) < fuel
    → timed_loop fuel w (length (timeline ticks entries)) ticks (written w entries)
      ≡ ok (timeline ticks entries)
unfolding written timeline Fits
timed_loop-written fuel w ticks [] fits lt = timed_loop-none fuel w ticks
timed_loop-written zero w ticks (e ∷ entries) fits lt = absurd (omega (arith, lt))
timed_loop-written (suc fuel) w ticks ((delta, state) ∷ entries) (d, s, last, fits) lt =
    let bytes = le_bytes 4 delta ++ (le_bytes ((w + 7) / 8) state ++ written w entries) in
    let long = length-entry w delta state (written w entries) in
    let ih = timed_loop-written fuel w (ticks + delta) entries fits (omega (arith, lt, long)) in
    let step = λ (left : ℕ).
      timed_loop-entry fuel w left ticks bytes delta state (written w entries)
        (timeline (ticks + delta) entries) (omega (arith, long)) (delta_of-entry w delta _ d)
        (state_of-entry w delta state (written w entries) s)
        (drop-entry w delta state (written w entries)) in
    elim (Bool-cases (delta == escape)) [
      | inl is ↦
          let (k, e) =
            timeline_some w (ticks + delta) entries (λ none. last none (ground (arith, is))) fits in
          rw is (rw e ((step k).0 is (rw e at ih)))
      | inr other ↦ rw other ((step (length (timeline (ticks + delta) entries))).1 other ih)
    ]

-- Timed states written entry by entry (deltas of 32 bits, states of w bits, escapes between them but none
-- behind the last sample) are read back as the samples they stand for, each
-- with the ticks since the start.
pub read_state_timed-written :
    (w : ℕ) (entries : List (ℕ × ℕ))
    → Fits w entries
    → read_state_timed (written w entries) (length (timeline 0 entries)) w ≡ ok (timeline 0 entries)
unfolding read_state_timed
read_state_timed-written w entries fits =
    timed_loop-written (length (written w entries) + 1) w 0 entries fits (omega arith)
