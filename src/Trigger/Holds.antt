-- ===== src/Trigger/Holds.antt =====
-- Whether some term of a stage holds: what `see_terms` says of the conditions' truth.
use oep_client_python.Prelude.{
  ℕ, ◌≡◌, ◌⊎◌, inl, inr, Bool, true, false, List, [], ◌∷◌, arith, All, Bool-cases,
}
use oep_client_python.Trigger.Cond.{Cond, Terms, World}
use oep_client_python.Trigger.Truth.{truth}
use oep_client_python.Trigger.Evaluator.{see_term, see_terms}

-- Every condition of some term holds, in a stage entered at `entered` and judged at `prev` before `ns`.
unfoldable pub SomeHolds : World → ℕ → ℕ → ℕ → Terms → Type 0
SomeHolds w entered ns prev [] = ⊥
SomeHolds w entered ns prev ((k, term) ∷ terms) =
    All (λ c. (truth w entered ns prev c).0 ≡ true) term ⊎ SomeHolds w entered ns prev terms

-- A Boolean that says whether P.
pub record Says (b : Bool) (P : Type 0) : Type 0 where
  pub yes : b ≡ true → P
  pub no : b ≡ false → ¬ P

module _ (w : World) (entered ns prev : ℕ) where
  see_term-Says :
      (term : List Cond)
      → Says
          (see_term w entered ns prev term).0
          (All (λ c. (truth w entered ns prev c).0 ≡ true) term)
  unfolding see_term
  see_term-Says [] = record { yes = λ e. tt; no = λ e h. cc (e) }
  see_term-Says (c ∷ term) =
      let more = see_term-Says term in
      record {
        yes = λ e. (ground (arith, e), more.yes (ground (arith, e)));
        no = λ e h. elim (Bool-cases (see_term w entered ns prev term).0) [
          | inl all ↦ ground (arith, e, all, h.0)
          | inr some_not ↦ more.no some_not h.1
        ];
      }

  pub see_terms-Says :
      (terms : Terms)
      → Says (see_terms w entered ns prev terms).0 (SomeHolds w entered ns prev terms)
  unfolding see_terms SomeHolds
  see_terms-Says [] = record { yes = λ e. cc (e); no = λ e h. h }
  see_terms-Says ((k, term) ∷ terms) =
      let one = see_term-Says term in
      let more = see_terms-Says terms in
      record {
        yes = λ e. elim (Bool-cases (see_term w entered ns prev term).0) [
          | inl holds ↦ inl (one.yes holds)
          | inr not_it ↦ inr (more.yes (ground (arith, e, not_it)))
        ];
        no = λ e h. elim h [
          | inl it ↦ one.no (ground (arith, e)) it
          | inr later ↦ more.no (ground (arith, e)) later
        ];
      }
