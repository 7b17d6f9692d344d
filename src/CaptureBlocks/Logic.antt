-- ===== src/CaptureBlocks/Logic.antt =====
-- src/oep_client/capture_blocks.py: format 1, the logic blocks. `reduced` is the list of its items (role,
-- (carriage, D)) with every D above 0; a loop over data[pos:] takes that list and the samples still to read.
mod Sizes
mod Reads
pub mod Length
use oep_client_python.Prelude.{
  ℕ, zero, suc, ◌+◌, ◌-◌, ◌*◌, ◌/◌, ◌%◌, ◌^◌, Bool, not, Option, none, some, List, [], ◌∷◌, ◌++◌,
  map, ltb, ◌==◌, length, take, drop, get_elem?, get_or, min, if◌then◌else◌,
}
use oep_client_python.Try.{
  Try, ok, raise, protocol_error, value_error, index_error, loop_bound, ◌>>=◌, ◌>>◌, require,
}
use oep_client_python.Bytes.{Bytes, le_bytes}

-- A reduced channel: its role, its carriage and its D.
abbrev pub Reduction : Type 0
Reduction = ℕ × (ℕ × ℕ)

-- LOGIC_CARRIAGE["change_latch"]
abbrev pub change_latch : ℕ
change_latch = 4

unfoldable pub value_bits : ℕ → ℕ
value_bits kind = if kind == change_latch then 2 else 1

-- -(-r // d)
unfoldable pub intervals : ℕ → ℕ → ℕ
intervals r d = (r + (d - 1)) / d

-- sum(1 for k, _ in reduced.values() if k == CHANGE_LATCH), and the sum of the intervals' bits
unfoldable pub start_bits : List Reduction → ℕ
start_bits [] = 0
start_bits ((role, (kind, d)) ∷ reduced) =
    (if kind == change_latch then 1 else 0) + start_bits reduced

unfoldable pub interval_bits : ℕ → List Reduction → ℕ
interval_bits r [] = 0
interval_bits r ((role, (kind, d)) ∷ reduced) =
    intervals r d * value_bits kind + interval_bits r reduced

-- With `width` given; where it is None, it is `raw`.
unfoldable pub block_bytes : List Reduction → ℕ → ℕ → ℕ
block_bytes reduced r w = (r * w + 7) / 8 + (start_bits reduced + interval_bits r reduced + 7) / 8

unfoldable pub segment_bytes : ℕ → List Reduction → ℕ → ℕ → ℕ
segment_bytes samples reduced block w =
    samples / block * block_bytes reduced block w
    + (if samples % block == 0 then 0 else block_bytes reduced (samples % block) w)

pub record LogicBlock : Type 0 where
  pub first : ℕ
  pub samples : ℕ
  pub raw : List (ℕ × Bytes)
  pub values : List (ℕ × List ℕ)
  pub starts : List (ℕ × ℕ)

-- `_bit`: past the end of the data it raises.
unfoldable pub bit : Bytes → ℕ → Try ℕ
bit bytes j = elim (get_elem? bytes (j / 8)) [
  | none ↦ raise index_error
  | some b ↦ ok (b / 2 ^ (j % 8) % 2)
]

-- A digit of the string of a number's bits, which ends in zeros.
unfoldable pub digit : Bytes → ℕ → ℕ
digit bytes j = get_or bytes (j / 8) 0 / 2 ^ (j % 8) % 2

-- The number whose bit k is the k-th of a list.
unfoldable pub bits_value : List ℕ → ℕ
bits_value [] = 0
bits_value (b ∷ bs) = b + 2 * bits_value bs

-- [f(at), f(at + step), …], n of them
unfoldable pub table {ℓ} : {A : Type ℓ} → ℕ → ℕ → ℕ → (ℕ → A) → List A
table zero at step f = []
table (suc n) at step f = f at ∷ table n (at + step) step f

-- The same of a function that may raise
unfoldable pub try_table {ℓ} : {A : Type ℓ} → ℕ → ℕ → ℕ → (ℕ → Try A) → Try (List A)
try_table zero at step f = ok []
try_table (suc n) at step f = do a ← f at; rest ← try_table n (at + step) step f; ok (a ∷ rest)

unfoldable pub uint : Bytes → ℕ → ℕ → Try ℕ
unfolding bits_value try_table
uint bytes j n = do bits ← try_table n j 1 (bit bytes); ok (bits_value bits)

-- One column of the wb-bit samples: every wb-th bit from k, packed.
unfoldable pub column : Bytes → ℕ → ℕ → ℕ → Bytes
unfolding bits_value table
column raw r wb k = le_bytes ((r + 7) / 8) (bits_value (table r k wb (digit raw)))

unfoldable pub columns : Bytes → ℕ → ℕ → List Bytes
unfolding table
columns raw r wb = if wb == 1 then take ((r + 7) / 8) raw ∷ [] else table wb 0 1 (column raw r wb)

-- b.raw[role] = cols[pos_of[j]]
unfoldable pub read_raw : List Bytes → List ℕ → List ℕ → Try (List (ℕ × Bytes))
read_raw cols pos_of [] = ok []
read_raw cols [] (role ∷ roles) = raise index_error
read_raw cols (p ∷ pos_of) (role ∷ roles) = elim (get_elem? cols p) [
  | none ↦ raise index_error
  | some col ↦ do raw ← read_raw cols pos_of roles; ok ((role, col) ∷ raw)
]

unfoldable pub read_starts : Bytes → ℕ → List Reduction → Try (List (ℕ × ℕ))
read_starts part at [] = ok []
read_starts part at ((role, (kind, d)) ∷ reduced) =
    let more = read_starts part (at + 1) reduced in
    let same = read_starts part at reduced in
    if kind == change_latch
    then (do level ← bit part at; levels ← more; ok ((role, level) ∷ levels))
    else same

unfoldable pub read_values : Bytes → ℕ → ℕ → List Reduction → Try (List (ℕ × List ℕ))
read_values part at r [] = ok []
read_values part at r ((role, (kind, d)) ∷ reduced) = do
  let nb = value_bits kind
  values ← try_table (intervals r d) at nb (λ j. uint part j nb)
  more ← read_values part (at + intervals r d * nb) r reduced
  ok ((role, values) ∷ more)

-- One round of the loop of `read_logic_blocks`, from the block's bytes.
unfoldable pub read_block : List ℕ → List ℕ → List Reduction → ℕ → ℕ → ℕ → Bytes → Try LogicBlock
unfolding columns
read_block roles pos_of reduced w first r bytes = do
  let rb = (r * w + 7) / 8
  let part = drop rb bytes
  raw ← read_raw (if length roles == 0 then [] else columns (take rb bytes) r w) pos_of roles
  starts ← read_starts part 0 reduced
  values ← read_values part (start_bits reduced) r reduced
  ok (record { first = first; samples = r; raw = raw; values = values; starts = starts })

unfoldable pub logic_loop :
    ℕ → List ℕ → List ℕ → List Reduction → ℕ → ℕ → ℕ → ℕ → Bytes → Try (List LogicBlock)
logic_loop fuel roles pos_of reduced block w first zero [] = ok []
logic_loop fuel roles pos_of reduced block w first zero (b ∷ bytes) = raise protocol_error
logic_loop zero roles pos_of reduced block w first (suc left) bytes = raise loop_bound
logic_loop (suc fuel) roles pos_of reduced block w first (suc left) bytes =
    let r = min block (suc left) in
    let size = block_bytes reduced r w in
    let rest =
      logic_loop fuel roles pos_of reduced block w (first + block) (suc left - r)
        (drop size bytes) in
    if ltb (length bytes) size
    then raise protocol_error
    else do b ← read_block roles pos_of reduced w first r (take size bytes); bs ← rest; ok (b ∷ bs)

-- sorted(…) of distinct roles, and of a dict by its keys
unfoldable pub insert : {A : Type 0} → (ℕ × A) → List (ℕ × A) → List (ℕ × A)
insert (k, a) [] = (k, a) ∷ []
insert (k, a) ((j, b) ∷ rows) =
    let later = insert (k, a) rows in if ltb j k then (j, b) ∷ later else (k, a) ∷ (j, b) ∷ rows

unfoldable pub sorted : {A : Type 0} → List (ℕ × A) → List (ℕ × A)
unfolding insert
sorted [] = []
sorted (row ∷ rows) = insert row (sorted rows)

unfoldable pub sorted_roles : List ℕ → List ℕ
unfolding sorted
sorted_roles roles = map (λ row. row.0) (sorted (map (λ role. (role, tt)) roles))

-- R when `width` is None; range(R) when `positions` is None.
abbrev pub width_or : Option ℕ → List ℕ → ℕ
width_or none roles = length roles
width_or (some w) roles = w

abbrev pub positions_or : Option (List ℕ) → List ℕ → List ℕ
positions_or none roles = table (length roles) 0 1 (λ k. k)
positions_or (some positions) roles = positions

-- A step of 0 is range's ValueError.
unfoldable pub read_logic_blocks :
    Bytes → ℕ → List ℕ → List Reduction → ℕ → Option ℕ → Option (List ℕ) → Try (List LogicBlock)
unfolding logic_loop
read_logic_blocks bytes samples raw_roles reduced block width positions = do
  require (not (block == 0)) value_error
  let roles = sorted_roles raw_roles
  logic_loop samples roles (positions_or positions roles) (sorted reduced) block
      (width_or width roles) 0 samples bytes

unfoldable pub bits_list : Bytes → ℕ → Try (List ℕ)
unfolding try_table
bits_list bits n = try_table n 0 1 (bit bits)
