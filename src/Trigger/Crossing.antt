-- ===== src/Trigger/Crossing.antt =====
-- A crossing's hysteresis: it does not hold again until the value has left the hysteresis.
use oep_client_python.Prelude.{
  ℕ, ◌+◌, ◌-◌, ◌≡◌, refl, inl, inr, Bool, true, false, ◌||◌, some, List, [], ◌∷◌, arith, ltb,
  Bool-cases,
}
use oep_client_python.Trigger.Cond.{Cond, Kind, cross_up, cross_down, World}
use oep_client_python.Trigger.Truth.{crossed_up, crossed_down, cross_truth, value_truth}

-- Whether a condition of this kind holds at any of the samples, each seen after the one before.
unfoldable pub any_hit : World → Kind → ℕ → ℕ → List ℕ → Cond → Bool
any_hit w k b ns [] c = false
any_hit w k b ns (v ∷ vs) c =
    let (hit, after) = value_truth w k false (some b) v ns c in hit || any_hit w k v ns vs after

abbrev pub any_below : ℕ → List ℕ → Bool
any_below bound [] = false
any_below bound (v ∷ vs) = ltb v bound || any_below bound vs

abbrev pub any_above : ℕ → List ℕ → Bool
any_above bound [] = false
any_above bound (v ∷ vs) = ltb bound v || any_above bound vs

-- A crossing that is not ready holds only where the value is away, which makes it ready; it stays so until then.
cross_truth_unready :
    (away crossed : Bool) (c : Cond)
    → c.ready ≡ false
    → away ≡ false
    → ((cross_truth away crossed c).0 ≡ false) × ((cross_truth away crossed c).1.ready ≡ false)
unfolding cross_truth
cross_truth_unready away crossed c r a = ground (arith, r, a)

cross_truth_hit :
    (away crossed : Bool) (c : Cond)
    → (cross_truth away crossed c).0 ≡ true
    → (cross_truth away crossed c).1.ready ≡ false
unfolding cross_truth
cross_truth_hit away crossed c h = ground (arith, h)

any_hit-cross_up :
    (w : World) (value hyst b ns : ℕ) (vs : List ℕ) (c : Cond)
    → c.ready ≡ false
    → any_hit w (cross_up value hyst) b ns vs c ≡ true
    → any_below (value - hyst) vs ≡ true
unfolding any_hit value_truth
any_hit-cross_up w value hyst b ns [] c r h = cc (h)
any_hit-cross_up w value hyst b ns (v ∷ vs) c r h =
    let after = (cross_truth (ltb v (value - hyst)) (crossed_up value (some b) v) c).1 in
    let rest = any_hit-cross_up w value hyst v ns vs after in
    elim (Bool-cases (ltb v (value - hyst))) [
      | inl away ↦ rw away refl
      | inr near ↦
          let (no_hit, still) =
            cross_truth_unready (ltb v (value - hyst)) (crossed_up value (some b) v) c r near in
          rw near (rest still (rw no_hit at h))
    ]

any_hit-cross_down :
    (w : World) (value hyst b ns : ℕ) (vs : List ℕ) (c : Cond)
    → c.ready ≡ false
    → any_hit w (cross_down value hyst) b ns vs c ≡ true
    → any_above (value + hyst) vs ≡ true
unfolding any_hit value_truth
any_hit-cross_down w value hyst b ns [] c r h = cc (h)
any_hit-cross_down w value hyst b ns (v ∷ vs) c r h =
    let after = (cross_truth (ltb (value + hyst) v) (crossed_down value (some b) v) c).1 in
    let rest = any_hit-cross_down w value hyst v ns vs after in
    elim (Bool-cases (ltb (value + hyst) v)) [
      | inl away ↦ rw away refl
      | inr near ↦
          let (no_hit, still) =
            cross_truth_unready (ltb (value + hyst) v) (crossed_down value (some b) v) c r near in
          rw near (rest still (rw no_hit at h))
    ]

-- After a crossing was seen, upwards or downwards, the next one is seen only after a sample beyond the
-- hysteresis on the side it comes from: a signal that moves about its value by less counts once.
pub value_truth_rearms :
    (w : World) (value hyst b v ns : ℕ) (vs : List ℕ) (c : Cond)
    → ((value_truth w (cross_up value hyst) false (some b) v ns c).0 ≡ true
        → any_hit w
            (cross_up value hyst)
            v
            ns
            vs
            (value_truth w (cross_up value hyst) false (some b) v ns c).1
          ≡ true
        → any_below (value - hyst) vs ≡ true)
      × ((value_truth w (cross_down value hyst) false (some b) v ns c).0 ≡ true
          → any_hit w
              (cross_down value hyst)
              v
              ns
              vs
              (value_truth w (cross_down value hyst) false (some b) v ns c).1
            ≡ true
          → any_above (value + hyst) vs ≡ true)
unfolding value_truth
value_truth_rearms w value hyst b v ns vs c = (
  λ hit again.
      any_hit-cross_up w value hyst v ns vs _
        (cross_truth_hit (ltb v (value - hyst)) (crossed_up value (some b) v) c hit) again,
  λ hit again.
      any_hit-cross_down w value hyst v ns vs _
        (cross_truth_hit (ltb (value + hyst) v) (crossed_down value (some b) v) c hit) again,
)
