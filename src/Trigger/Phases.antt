-- ===== src/Trigger/Phases.antt =====
-- The ways through the diagram of the stages.
use oep_client_python.Prelude.{
  ℕ, ◌+◌, ◌<◌, ◌≤◌, ◌≡◌, refl, subst, ◌⊎◌, inl, inr, List, [], ◌∷◌, arith, ◌==◌, Bool-cases,
}
use oep_client_python.Trigger.Invariant.{
  Phase, waiting, fired, Moves, stay, counts, restarts, advances, fires,
}

-- The phases after one another, each by a move from the one before.
unfoldable pub Follows : ℕ → Phase → List Phase → Phase → Type 0
Follows stages p [] r = p ≡ r
Follows stages p (q ∷ path) r = Moves stages p q × Follows stages q path r

-- A stage is waited in somewhere along the way.
unfoldable pub Visits : ℕ → Phase → List Phase → Type 0
Visits k p [] = (d : ℕ) × (p ≡ waiting k d)
Visits k p (q ∷ path) = ((d : ℕ) × (p ≡ waiting k d)) ⊎ Visits k q path

Moves-cases :
    {stages s d : ℕ} {q : Phase}
    → Moves stages (waiting s d) q
    → ((t : ℕ) × (c : ℕ) × (t ≤ s + 1) × (q ≡ waiting t c)) ⊎ ((s + 1 ≡ stages) × (q ≡ fired))
Moves-cases (stay s d) = inl (s, d, omega arith, refl)
Moves-cases (counts s d) = inl (s, d + 1, omega arith, refl)
Moves-cases (restarts s d) = inl (0, 0, omega arith, refl)
Moves-cases (advances s d more) = inl (s + 1, 0, omega arith, refl)
Moves-cases (fires s d last) = inr (last, refl)

Visits-here : (k d : ℕ) (path : List Phase) → Visits k (waiting k d) path
unfolding Visits
Visits-here k d [] = (d, refl)
Visits-here k d (q ∷ path) = inl (d, refl)

Visits-later : (k : ℕ) (p q : Phase) (path : List Phase) → Visits k q path → Visits k p (q ∷ path)
unfolding Visits
Visits-later k p q path h = inr h

pub Follows-more :
    (n m : ℕ) (p q r : Phase) (path : List Phase)
    → m ≡ n
    → Moves n p q
    → Follows m q path r
    → Follows n p (q ∷ path) r
unfolding Follows
Follows-more n m p q r path e h rest = (h, subst (λ k. Follows k q path r) e rest)

pub Follows-Visits :
    (stages k s d : ℕ) (path : List Phase)
    → s ≤ k
    → k < stages
    → Follows stages (waiting s d) path fired
    → Visits k (waiting s d) path
unfolding Follows
Follows-Visits stages k s d [] le lt follows = cc (follows)
Follows-Visits stages k s d (q ∷ path) le lt (m, follows) = elim (Bool-cases (s == k)) [
  | inl same ↦ let e : s ≡ k = ground (arith, same) in rw e (Visits-here k d (q ∷ path))
  | inr other ↦ elim (Moves-cases m) [
    | inl (t, c, near, is) ↦
        let rest =
          Follows-Visits stages k t c path (ground (arith, other, le, near)) lt
            (rw is at follows) in
        Visits-later k (waiting s d) q path (rw is rest)
    | inr (last, is) ↦ absurd (ground (arith, other, last, le, lt))
  ]
]
