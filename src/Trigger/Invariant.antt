-- ===== src/Trigger/Invariant.antt =====
-- What always holds of an evaluator, and the diagram of the stages it goes through.
use oep_client_python.Prelude.{
  ℕ, zero, suc, ◌+◌, ◌<◌, ◌≤◌, ◌≡◌, refl, none, some, List, [], ◌∷◌, arith, length, get_or, set,
  length-set, All,
}
use oep_client_python.Trigger.Cond.{Stage, empty_stage}
use oep_client_python.Trigger.Evaluator.{Evaluator, current, fresh_stage, enter}

-- A stage's condition counts at least one rising.
pub record IsStage (st : Stage) : Type 0 where
  pub counts : 0 < st.count

-- The evaluator is in a stage of the expression, has counted less risings than the stage asks for, and has not
-- passed the stage's time.
pub record IsEvaluator (e : Evaluator) : Type 0 where
  pub in_stage : e.stage < length e.stages
  pub stages_ok : All IsStage e.stages
  pub entered : e.entered_ns ≤ e.at_ns
  pub below_count : e.event ≡ none → e.done < (current e).count
  pub in_time :
      e.event ≡ none → 0 < (current e).within_ns → e.at_ns < e.entered_ns + (current e).within_ns

-- The diagram: which stage is waited in and how many risings it has counted, or the event.
pub data Phase : Type 0 where
  waiting : (stage done : ℕ) → Phase
  fired : Phase

pub data Moves (stages : ℕ) : Phase → Phase → Type 0 where
  stay : (s d : ℕ) → Moves stages (waiting s d) (waiting s d)
  counts : (s d : ℕ) → Moves stages (waiting s d) (waiting s (d + 1))
  restarts : (s d : ℕ) → Moves stages (waiting s d) (waiting 0 0)
  advances : (s d : ℕ) → s + 1 < stages → Moves stages (waiting s d) (waiting (s + 1) 0)
  fires : (s d : ℕ) → s + 1 ≡ stages → Moves stages (waiting s d) fired

unfoldable pub phase : Evaluator → Phase
phase e = elim e.event [ none ↦ waiting e.stage e.done | some event ↦ fired ]

module _ {ℓ} {A : Type ℓ} where
  pub get_or-set_self :
      (xs : List A) (i : ℕ) (v d : A) → i < length xs → get_or (set xs i v) i d ≡ v
  get_or-set_self [] i v d h = absurd (omega (arith, h))
  get_or-set_self (x ∷ xs) zero v d h = refl
  get_or-set_self (x ∷ xs) (suc i) v d h = get_or-set_self xs i v d (omega (arith, h))

  pub All-set {κ} :
      (P : A → Type κ) (xs : List A) (i : ℕ) (v : A) → All P xs → P v → All P (set xs i v)
  All-set P [] i v h p = tt
  All-set P (x ∷ xs) zero v h p = (p, h.1)
  All-set P (x ∷ xs) (suc i) v h p = (h.0, All-set P xs i v h.1 p)

  pub All-get_or {κ} :
      (P : A → Type κ) (xs : List A) (i : ℕ) (d : A) → All P xs → P d → P (get_or xs i d)
  All-get_or P [] i d h p = p
  All-get_or P (x ∷ xs) zero d h p = h.0
  All-get_or P (x ∷ xs) (suc i) d h p = All-get_or P xs i d h.1 p

fresh_stage-fields :
    (st : Stage) → ((fresh_stage st).count ≡ st.count) × ((fresh_stage st).within_ns ≡ st.within_ns)
unfolding fresh_stage
fresh_stage-fields st = (refl, refl)

pub IsStage-ok :
    (e : Evaluator) (k : ℕ) → All IsStage e.stages → IsStage (get_or e.stages k empty_stage)
IsStage-ok e k h = All-get_or IsStage e.stages k empty_stage h (omega arith)

-- A stage that is entered.
pub enter-IsEvaluator :
    (k ns : ℕ) (e : Evaluator)
    → k < length e.stages
    → All IsStage e.stages
    → e.at_ns ≡ ns
    → IsEvaluator (enter k ns e)
unfolding enter current
enter-IsEvaluator k ns e lt ok at =
    let st = get_or e.stages k empty_stage in
    let here = get_or-set_self e.stages k (fresh_stage st) empty_stage lt in
    let (c, t) = fresh_stage-fields st in
    let good = IsStage-ok e k ok in
    let fresh_ok : IsStage (fresh_stage st) = record { counts = omega (arith, good.counts, c) } in
    record {
      in_stage = omega (arith, lt, length-set e.stages k (fresh_stage st));
      stages_ok = All-set IsStage e.stages k (fresh_stage st) ok fresh_ok;
      entered = omega (arith, at);
      below_count = λ _. rw here (omega (arith, fresh_ok.counts));
      in_time = λ _ h. omega (arith, at, h);
    }
