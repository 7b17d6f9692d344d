-- ===== src/Message/Serial/Page.antt =====
-- The place in a list paged by serial where an answer starts.
use oep_client_python.Prelude.{
  ℕ, ◌≡◌, ◌≢◌, ◌⊎◌, inl, inr, refl, none, some, Option-cases, List, [], ◌∷◌, arith, length, take,
  get_elem?, All,
}
use oep_client_python.Message.Serial.{index, serial_page_start}

-- The first place of a serial, and its absence.
index-some :
    (xs : List ℕ) (x i : ℕ)
    → index xs x ≡ some i
    → (get_elem? xs i ≡ some x) × All (λ y. y ≢ x) (take i xs)
unfolding index
index-some [] x i e = cc
index-some (y ∷ ys) x i e = elim (Option-cases (index ys x)) [
  | inl h ↦ ground (arith, h)
  | inr (j, h) ↦ ground (arith, h, index-some ys x j h)
]

index-none : (xs : List ℕ) (x : ℕ) → index xs x ≡ none → All (λ y. y ≢ x) xs
unfolding index
index-none [] x e = tt
index-none (y ∷ ys) x e = ground (arith, index-none ys x)

-- Where a page from a serial starts: behind everything for the serial that comes next or when nothing is kept; else
-- at the first element of that serial; else, for a serial that is not kept, at the oldest.
pub serial_page_start_cases :
    (kept : List ℕ) (next_serial from_serial : ℕ)
    → (((from_serial ≡ next_serial) ⊎ (kept ≡ []))
        × (serial_page_start kept next_serial from_serial ≡ length kept))
      ⊎ ((from_serial ≢ next_serial)
          × (get_elem? kept (serial_page_start kept next_serial from_serial) ≡ some from_serial)
          × All (λ y. y ≢ from_serial) (take (serial_page_start kept next_serial from_serial) kept))
      ⊎ ((from_serial ≢ next_serial)
          × (kept ≢ [])
          × All (λ y. y ≢ from_serial) kept
          × (serial_page_start kept next_serial from_serial ≡ 0))
unfolding serial_page_start
serial_page_start_cases [] next_serial from_serial = inl (inr refl, ground arith)
serial_page_start_cases (y ∷ ys) next_serial from_serial =
    elim (Option-cases (index (y ∷ ys) from_serial)) [
      | inl h ↦ ground (arith, h, index-none (y ∷ ys) from_serial h)
      | inr (i, h) ↦ ground (arith, h, index-some (y ∷ ys) from_serial i h)
    ]
