-- ===== src/Cobs/Block.antt =====
-- The blocks that `encode` cuts its input into.
use oep_client_python.Prelude.{
  ℕ, zero, suc, ◌≤◌, ◌≡◌, ◌≢◌, ◌⊎◌, inl, inr, refl, [], ◌∷◌, ◌++◌, arith, length, All, Bool-cases,
  ◌==◌,
}
use oep_client_python.Bytes.{Bytes}
use oep_client_python.Cobs.{block}

-- A block and what follows it are the input; the block has no zero byte and at most `room` bytes; and what
-- follows a block that is not full begins with a zero.
pub block_split : (room : ℕ) (rest : Bytes) → (block room rest).0 ++ (block room rest).1 ≡ rest
unfolding block
block_split zero rest = refl
block_split (suc room) [] = refl
block_split (suc room) (b ∷ bs) = ground (arith, block_split room bs)

pub block_nonzero : (room : ℕ) (rest : Bytes) → All (λ b. b ≢ 0) (block room rest).0
unfolding block
block_nonzero zero rest = tt
block_nonzero (suc room) [] = tt
block_nonzero (suc room) (b ∷ bs) = ground (arith, block_nonzero room bs)

pub block-le : (room : ℕ) (rest : Bytes) → length (block room rest).0 ≤ room
unfolding block
block-le zero rest = omega arith
block-le (suc room) [] = omega arith
block-le (suc room) (b ∷ bs) = ground (arith, block-le room bs)

pub block_stop :
    (room : ℕ) (rest : Bytes)
    → ((block room rest).1 ≡ [])
      ⊎ (length (block room rest).0 ≡ room)
      ⊎ ((xs : Bytes) × ((block room rest).1 ≡ 0 ∷ xs))
unfolding block
block_stop zero rest = inr (inl refl)
block_stop (suc room) [] = inl refl
block_stop (suc room) (b ∷ bs) = elim (Bool-cases (b == 0)) [
  | inl z ↦ rw z (inr (inr (bs, ground (arith, z))))
  | inr nz ↦ elim (block_stop room bs) [
    | inl e ↦ rw nz (inl e)
    | inr (inl e) ↦ rw nz (inr (inl (omega (arith, e))))
    | inr (inr (xs, e)) ↦ rw nz (inr (inr (xs, e)))
  ]
]
