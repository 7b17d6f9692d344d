-- ===== src/Trigger/Steps.antt =====
-- What a round of the evaluator does to the stage it is in: the diagram of its moves, and what always holds.
use oep_client_python.Prelude.{
  ℕ, ◌+◌, ◌<◌, ◌≤◌, ◌≡◌, refl, ◌∙◌, inl, inr, Bool, true, false, none, some, List, arith, length,
  get_or, set, length-set, All,
}
use oep_client_python.Trigger.Cond.{Cond, Stage, empty_stage, World}
use oep_client_python.Trigger.Evaluator.{
  Event, Evaluator, current, see_terms, fresh_stage, enter, advance, step,
}
use oep_client_python.Trigger.Grid.{Grid}
use oep_client_python.Trigger.Invariant.{
  IsStage, IsEvaluator, waiting, fired, Moves, stay, counts, restarts, advances, fires, phase,
  get_or-set_self, All-set, enter-IsEvaluator,
}
use oep_client_python.Trigger.Decided.{
  Decided, back, on_time_up, reached, counted, unchanged, decide-Decided, advance_cases,
}

-- What a decision is made on: the stage running, and the time that is judged.
record Judged (ns : ℕ) (st : Stage) (e : Evaluator) : Type 0 where
  in_stage : e.stage < length e.stages
  stages_ok : All IsStage e.stages
  running : current e ≡ st
  now : e.at_ns ≡ ns
  entered : e.entered_ns ≤ ns
  waits : e.event ≡ none
  below : e.done < st.count

-- What a round leaves.
pub record Stepped (ns : ℕ) (e after : Evaluator) : Type 0 where
  pub sound : IsEvaluator after
  pub moves : Moves (length e.stages) (phase e) (phase after)
  pub at : after.at_ns ≡ ns
  pub kept : length after.stages ≡ length e.stages
  pub stamped : (event : Event) → after.event ≡ some event → event.1.0 ≡ ns

pub waiting_phase : (e : Evaluator) → e.event ≡ none → phase e ≡ waiting e.stage e.done
unfolding phase
waiting_phase e h = rw (h, phase) refl

pub fired_phase : (e : Evaluator) (event : Event) → e.event ≡ some event → phase e ≡ fired
unfolding phase
fired_phase e event h = rw (h, phase) refl

pub enter-fields :
    (k ns : ℕ) (e : Evaluator)
    → ((enter k ns e).stage ≡ k)
      × ((enter k ns e).done ≡ 0)
      × ((enter k ns e).event ≡ e.event)
      × ((enter k ns e).at_ns ≡ e.at_ns)
      × (length (enter k ns e).stages ≡ length e.stages)
unfolding enter
enter-fields k ns e =
    (refl, refl, refl, refl, length-set e.stages k (fresh_stage (get_or e.stages k empty_stage)))

module _ (w : World) (g : Grid) (st : Stage) (ns : ℕ) (e : Evaluator) (j : Judged ns st e) where
  -- A stage that is entered from `e`, its count and `prev_or` anything.
  entered_Stepped :
      (k d : ℕ) (b : Bool)
      → k < length e.stages
      → Moves (length e.stages) (waiting e.stage e.done) (waiting k 0)
      → Stepped ns e (enter k ns (record e { prev_or = b; done = d }))
  entered_Stepped k d b lt m =
      let from = record e { prev_or = b; done = d } in
      let (s, z, v, a, n) = enter-fields k ns from in
      let none_yet : (enter k ns from).event ≡ none = v ∙ j.waits in
      record {
        sound = enter-IsEvaluator k ns from lt j.stages_ok j.now;
        moves = rw (waiting_phase e j.waits, waiting_phase (enter k ns from) none_yet, s, z) m;
        at = a ∙ j.now;
        kept = n;
        stamped = λ event h. absurd (cc (h, none_yet));
      }

  fired_Stepped :
      (d : ℕ) (b : Bool) (event : Event)
      → length e.stages ≤ e.stage + 1
      → event.1.0 ≡ ns
      → Stepped ns e (record e { prev_or = b; done = d; event = some event })
  fired_Stepped d b event last stamp = record {
    sound = record {
      in_stage = j.in_stage;
      stages_ok = j.stages_ok;
      entered = omega (arith, j.entered, j.now);
      below_count = λ h. cc (h);
      in_time = λ h. cc (h);
    };
    moves =
        rw
          (
            waiting_phase e j.waits,
            fired_phase (record e { prev_or = b; done = d; event = some event }) event refl,
          )
          (fires e.stage e.done (omega (arith, last, j.in_stage)));
    at = j.now;
    kept = refl;
    stamped = λ other h. cc (h, stamp);
  }

  stays_Stepped :
      (d : ℕ) (b : Bool)
      → d < st.count
      → (0 < st.within_ns → ns < e.entered_ns + st.within_ns)
      → Moves (length e.stages) (waiting e.stage e.done) (waiting e.stage d)
      → Stepped ns e (record e { prev_or = b; done = d })
  unfolding current
  stays_Stepped d b few early m = record {
    sound = record {
      in_stage = j.in_stage;
      stages_ok = j.stages_ok;
      entered = omega (arith, j.entered, j.now);
      below_count = λ h. rw j.running few;
      in_time = λ h within. rw (j.running, j.now) (early (rw j.running at within));
    };
    moves =
        rw (waiting_phase e j.waits, waiting_phase (record e { prev_or = b; done = d }) j.waits) m;
    at = j.now;
    kept = refl;
    stamped = λ event h. absurd (cc (h, j.waits));
  }

  advance-Stepped :
      (conds : List Cond) (up : Bool) (d : ℕ) (b : Bool)
      → Stepped ns e (advance w g conds up ns (record e { prev_or = b; done = d }))
  advance-Stepped conds up d b =
      elim (advance_cases w g conds up ns (record e { prev_or = b; done = d })) [
        | inl (more, is) ↦
            rw is (entered_Stepped (e.stage + 1) d b more (advances e.stage e.done more))
        | inr (last, (event, stamp, is)) ↦ rw is (fired_Stepped d b event last stamp)
      ]

  decided_Stepped : (after : Evaluator) → Decided w g st ns e after → Stepped ns e after
  decided_Stepped after (back b is) =
      rw is (entered_Stepped 0 e.done b (omega (arith, j.in_stage)) (restarts e.stage e.done))
  decided_Stepped after (on_time_up conds is) = rw is (advance-Stepped conds true e.done e.prev_or)
  decided_Stepped after (reached b conds is) = rw is (advance-Stepped conds false (e.done + 1) b)
  decided_Stepped after (counted b is few early) =
      rw is (stays_Stepped (e.done + 1) b few early (counts e.stage e.done))
  decided_Stepped after (unchanged b is early) =
      rw is (stays_Stepped e.done b j.below early (stay e.stage e.done))

current-set :
    (e : Evaluator) (ns : ℕ) (st : Stage)
    → e.stage < length e.stages
    → current (record e { at_ns = ns; stages = set e.stages e.stage st }) ≡ st
unfolding current
current-set e ns st lt = get_or-set_self e.stages e.stage st empty_stage lt

phase_set :
    (e : Evaluator) (ns : ℕ) (stages : List Stage)
    → phase (record e { at_ns = ns; stages = stages }) ≡ phase e
unfolding phase
phase_set e ns stages = refl

-- A round: time goes on to `ns`, what always holds is kept, and the stage moves along the diagram.
pub step-Stepped :
    (w : World) (g : Grid) (ns : ℕ) (e : Evaluator)
    → IsEvaluator e
    → e.event ≡ none
    → e.at_ns ≤ ns
    → Stepped ns e (step w g ns e)
unfolding step
step-Stepped w g ns e sound waits le =
    let st = current e in
    let held = see_terms w e.entered_ns ns e.at_ns st.terms in
    let aborted = see_terms w e.entered_ns ns e.at_ns st.aborts in
    let seen : Stage = record st { terms = held.1; aborts = aborted.1 } in
    let moved : Evaluator = record e { at_ns = ns; stages = set e.stages e.stage seen } in
    let few : e.done < seen.count = sound.below_count waits in
    let n : length moved.stages ≡ length e.stages = length-set e.stages e.stage seen in
    let judged : Judged ns seen moved = record {
      in_stage = omega (arith, sound.in_stage, n);
      stages_ok = All-set IsStage e.stages e.stage seen sound.stages_ok (omega (arith, few));
      running = current-set e ns seen sound.in_stage;
      now = refl;
      entered = omega (arith, sound.entered, le);
      waits = waits;
      below = few;
    } in
    let done =
      decided_Stepped w g seen ns moved judged _
        (decide-Decided w g seen held.0 aborted.0 ns moved) in
    record {
      sound = done.sound;
      moves = rw (← n, ← phase_set e ns (set e.stages e.stage seen)) done.moves;
      at = done.at;
      kept = done.kept ∙ n;
      stamped = done.stamped;
    }
