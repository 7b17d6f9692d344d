-- ===== src/CaptureBlocks/Logic/Length.antt =====
-- A segment of logic blocks is read just when it has the bytes that `segment_bytes` computes, and its blocks
-- are its samples cut into pieces.
use oep_client_python.Prelude.{ℕ, ◌+◌, ◌-◌, ◌<◌, ◌≤◌, ◌≡◌, List, [], ◌∷◌, length, min, All}
use oep_client_python.Bytes.{Bytes}
use oep_client_python.CaptureBlocks.Logic.{Reduction, start_bits, LogicBlock}
use oep_client_python.CaptureBlocks.Logic.Reads.{counts, cuts}

-- The blocks are the samples from `first` on, cut into pieces of `block` and one that is shorter. Each has for
-- each reduced channel the values of its intervals, and a level for each change latch.
unfoldable pub IsCut : List Reduction → ℕ → ℕ → ℕ → List LogicBlock → Type 0
IsCut reduced block first left [] = left ≡ 0
IsCut reduced block first left (b ∷ bs) =
    (0 < left)
    × (b.first ≡ first)
    × (b.samples ≡ min block left)
    × (counts b.values ≡ cuts (min block left) reduced)
    × (length b.starts ≡ start_bits reduced)
    × IsCut reduced block (first + block) (left - min block left) bs

-- Every D is above 0.
abbrev pub HasIntervals : List Reduction → Type 0
HasIntervals reduced = All (λ row. 0 < row.1.1) reduced

-- A column of the layout for each raw channel.
unfoldable pub Placed : ℕ → List ℕ → List ℕ → Type 0
Placed w pos_of roles = (length roles ≤ length pos_of) × All (λ p. p < w) pos_of

-- What a block that is read has: the samples from `first` on, and of each reduced channel the values of its
-- intervals and the levels before the change latches.
record IsBlock (reduced : List Reduction) (first r : ℕ) (b : LogicBlock) : Type 0 where
  at : b.first ≡ first
  size : b.samples ≡ r
  values : counts b.values ≡ cuts r reduced
  starts : length b.starts ≡ start_bits reduced
