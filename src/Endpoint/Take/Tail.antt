-- ===== src/Endpoint/Take/Tail.antt =====
-- The bytes of a tail: `Take.tail` goes through the TLVs that `split_tlvs` cuts.
use oep_client_python.Prelude.{
  ℕ, zero, suc, ◌≤◌, ◌≡◌, inl, inr, refl, ◌∙◌, List, [], ◌∷◌, arith, length,
}
use oep_client_python.Try.{ok, raise, Try-cases}
use oep_client_python.Bytes.{Bytes}
use oep_client_python.Registry.{malformed}
use oep_client_python.Message.Tlv.{Tlv, split_one, split_loop}
use oep_client_python.Message.Tlv.RoundTrip.{split_one-shorter}
use oep_client_python.VirtualCore.State.{Verdict, Verdict-cases, accept, reject, ◌>>=◌}
use oep_client_python.Endpoint.Take.{Take, see, tail_one, tail_loop}

module _ (known repeats : List ℕ) where
  -- The rounds after the TLVs have been cut out.
  unfoldable pub see_all : List Tlv → Take → Verdict Take
  see_all [] t = accept t
  see_all (x ∷ tlvs) t = see known repeats x t >>= see_all tlvs

  see-reject :
      (x : Tlv) (t : Take) (r : ℕ) (p : Bytes)
      → see known repeats x t ≡ reject r p
      → (r ≡ malformed) × (p ≡ [])
  unfolding see
  see-reject x t r p e = ground arith

  see_all-reject :
      (tlvs : List Tlv) (t : Take) (r : ℕ) (p : Bytes)
      → see_all tlvs t ≡ reject r p
      → (r ≡ malformed) × (p ≡ [])
  unfolding see_all
  see_all-reject [] t r p e = ground arith
  see_all-reject (x ∷ tlvs) t r p e = elim (Verdict-cases (see known repeats x t)) [
    | inl (t', one) ↦ see_all-reject tlvs t' r p (rw one at e)
    | inr (r', p', one) ↦ see-reject x t r p (one ∙ rw one at e)
  ]

  tail_one-split_one :
      (rest : Bytes) (t : Take)
      → tail_one known repeats rest t ≡ (elim (split_one rest) [
        | ok (x, more) ↦ see known repeats x t >>= λ t'. accept (t', more)
        | raise e ↦ reject malformed []
      ])
  unfolding tail_one split_one
  tail_one-split_one rest t = ground arith

  pub tail_loop-split_loop :
      (fuel : ℕ) (rest : Bytes) (t : Take)
      → length rest ≤ fuel
      → tail_loop known repeats fuel rest t
        ≡ (elim (split_loop fuel rest) [ ok tlvs ↦ see_all tlvs t | raise e ↦ reject malformed [] ])
  unfolding tail_loop split_loop see_all
  tail_loop-split_loop fuel [] t h = refl
  tail_loop-split_loop zero (b ∷ bs) t h = absurd (omega arith)
  tail_loop-split_loop (suc fuel) (b ∷ bs) t h = elim (Try-cases (split_one (b ∷ bs))) [
    | inl ((x, more), cut) ↦
        let shorter = split_one-shorter (b ∷ bs) x more cut in
        elim (Verdict-cases (see known repeats x t)) [
          | inl (t', one) ↦
              let later = tail_loop-split_loop fuel more t' (omega (arith, shorter)) in
              elim (Try-cases (split_loop fuel more)) [
                | inl (tlvs, cuts) ↦
                    rw (tail_one-split_one (b ∷ bs) t, cut, one, cuts, one) (rw cuts at later)
                | inr (e, cuts) ↦
                    rw (tail_one-split_one (b ∷ bs) t, cut, one, cuts) (rw cuts at later)
              ]
          | inr (r, p, one) ↦
              let (reason, payload) = see-reject x t r p one in
              elim (Try-cases (split_loop fuel more)) [
                | inl (tlvs, cuts) ↦ rw (tail_one-split_one (b ∷ bs) t, cut, one, cuts, one) refl
                | inr (e, cuts) ↦
                    rw (tail_one-split_one (b ∷ bs) t, cut, one, cuts, reason, payload) refl
              ]
        ]
    | inr (e, cut) ↦ rw (tail_one-split_one (b ∷ bs) t, cut) refl
  ]
