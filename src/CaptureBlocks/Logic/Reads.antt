-- ===== src/CaptureBlocks/Logic/Reads.antt =====
-- The reduced part of a logic block has every bit that is read of it.
use oep_client_python.Prelude.{
  ℕ, zero, suc, ◌+◌, ◌*◌, ◌/◌, ◌%◌, ◌^◌, ◌<◌, ◌≤◌, ◌≡◌, refl, ap, inl, inr, some, List, [], ◌∷◌,
  arith, ◌==◌, length, get_elem?, if◌then◌else◌, Bool-cases,
}
use oep_client_python.Try.{Try, ok}
use oep_client_python.Bytes.{Bytes}
use oep_client_python.CaptureBlocks.Logic.{
  Reduction, change_latch, value_bits, intervals, start_bits, interval_bits, bit, try_table, uint,
  bits_value, read_starts, read_values,
}

pub get_elem?-some :
    {A : Type 0} (xs : List A) (i : ℕ) → i < length xs → (x : A) × (get_elem? xs i ≡ some x)
get_elem?-some [] i lt = absurd (omega (arith, lt))
get_elem?-some (x ∷ xs) zero lt = (x, refl)
get_elem?-some (x ∷ xs) (suc i) lt = get_elem?-some xs i (omega (arith, lt))

bit-ok : (bytes : Bytes) (j : ℕ) → j < 8 * length bytes → (b : ℕ) × (bit bytes j ≡ ok b)
unfolding bit
bit-ok bytes j lt =
    let (b, e) = get_elem?-some bytes (j / 8) (omega (arith, lt)) in
    (b / 2 ^ (j % 8) % 2, rw (e, bit) refl)

try_table-ok :
    {A : Type 0} (n at step m : ℕ) (f : ℕ → Try A)
    → at + n * step ≤ m
    → ((j : ℕ) → j + step ≤ m → (a : A) × (f j ≡ ok a))
    → (out : List A) × (try_table n at step f ≡ ok out) × (length out ≡ n)
unfolding try_table
try_table-ok zero at step m f le h = ([], refl, refl)
try_table-ok (suc n) at step m f le h =
    let (a, e) = h at (omega (arith, le)) in
    let (out, e', len) = try_table-ok n (at + step) step m f (omega (arith, le)) h in
    (a ∷ out, rw (e, e') refl, ap suc len)

uint-ok : (bytes : Bytes) (j n : ℕ) → j + n ≤ 8 * length bytes → (v : ℕ) × (uint bytes j n ≡ ok v)
unfolding uint
uint-ok bytes j n le =
    let (out, e, _) =
      try_table-ok n j 1 (8 * length bytes) (bit bytes) (omega (arith, le))
        λ k lt. bit-ok bytes k (omega (arith, lt)) in
    (bits_value out, rw e refl)

pub read_starts-ok :
    (part : Bytes) (at : ℕ) (reduced : List Reduction)
    → at + start_bits reduced ≤ 8 * length part
    → (out : List (ℕ × ℕ)) × (read_starts part at reduced ≡ ok out)
      × (length out ≡ start_bits reduced)
unfolding read_starts start_bits
read_starts-ok part at [] le = ([], refl, refl)
read_starts-ok part at ((role, (kind, d)) ∷ reduced) le = elim (Bool-cases (kind == change_latch)) [
  | inl latch ↦
      let one : ◌≡◌ {A = ℕ} (if kind == change_latch then 1 else 0) 1 = rw latch refl in
      let (b, e) = bit-ok part at (omega (arith, le, one)) in
      let (out, e', n) = read_starts-ok part (at + 1) reduced (omega (arith, le, one)) in
      ((role, b) ∷ out, ground (arith, latch, e, e'), omega (arith, n, one))
  | inr other ↦
      let zero_more : ◌≡◌ {A = ℕ} (if kind == change_latch then 1 else 0) 0 = rw other refl in
      let (out, e, n) = read_starts-ok part at reduced (omega (arith, le, zero_more)) in
      (out, ground (arith, other, e), omega (arith, n, zero_more))
]

-- How many values each channel has.
abbrev pub counts {ℓ} : {A : Type ℓ} → List (ℕ × List A) → List (ℕ × ℕ)
counts [] = []
counts ((role, values) ∷ rows) = (role, length values) ∷ counts rows

-- The intervals of r samples that each channel's D cuts them into.
abbrev pub cuts : ℕ → List Reduction → List (ℕ × ℕ)
cuts r [] = []
cuts r ((role, (kind, d)) ∷ reduced) = (role, intervals r d) ∷ cuts r reduced

counts-next :
    {A : Type 0} {n : ℕ} {ns : List (ℕ × ℕ)} (role : ℕ) (values : List A) (more : List (ℕ × List A))
    → length values ≡ n
    → counts more ≡ ns
    → counts ((role, values) ∷ more) ≡ (role, n) ∷ ns
counts-next role values more n ns = rw (n, ns) refl

pub read_values-ok :
    (part : Bytes) (at r : ℕ) (reduced : List Reduction)
    → at + interval_bits r reduced ≤ 8 * length part
    → (out : List (ℕ × List ℕ)) × (read_values part at r reduced ≡ ok out)
      × (counts out ≡ cuts r reduced)
unfolding read_values interval_bits
read_values-ok part at r [] le = ([], refl, refl)
read_values-ok part at r ((role, (kind, d)) ∷ reduced) le =
    let nb = value_bits kind in
    let (values, e, n) =
      try_table-ok (intervals r d) at nb (8 * length part) (λ j. uint part j nb) (omega (arith, le))
        λ j lt. uint-ok part j nb lt in
    let (more, e', ns) =
      read_values-ok part (at + intervals r d * nb) r reduced (omega (arith, le)) in
    ((role, values) ∷ more, rw (e, e') refl, counts-next role values more n ns)
