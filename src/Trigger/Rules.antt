-- ===== src/Trigger/Rules.antt =====
-- src/oep_client/virtual_bench_trigger.py: what `_step` makes of a stage, by what its conditions say.
use oep_client_python.Prelude.{
  ℕ, ◌+◌, ◌<◌, ◌≤◌, ◌≡◌, true, false, none, List, ltb, length, if◌then◌else◌,
}
use oep_client_python.Trigger.Cond.{Cond, Stage, Terms, World}
use oep_client_python.Trigger.Evaluator.{Evaluator}
use oep_client_python.Trigger.Grid.{Grid}
use oep_client_python.Trigger.Invariant.{Phase, waiting, fired, phase}

-- The stage after one that is done, or the event.
unfoldable pub after_stage : ℕ → ℕ → Phase
after_stage stages s = if ltb (s + 1) stages then waiting (s + 1) 0 else fired

-- The stage's time is over at `ns`.
abbrev pub IsLate : Stage → ℕ → Evaluator → Type 0
IsLate st ns e = (0 < st.within_ns) × (e.entered_ns + st.within_ns ≤ ns)

-- The rules of a round: an abort comes first, then the stage's time, then the
-- rising of its condition. `held` and `aborted` say whether a term and whether an abort holds.
pub data Ruled (st : Stage) (held aborted : Type 0) (ns : ℕ) (e after : Evaluator) : Type 0 where
  aborts : aborted → phase after ≡ waiting 0 0 → Ruled st held aborted ns e after
  times_out :
      ¬ aborted
      → IsLate st ns e
      → st.on_timeout ≡ 0
      → phase after ≡ waiting 0 0
      → Ruled st held aborted ns e after
  holds_out :
      ¬ aborted
      → IsLate st ns e
      → 0 < st.on_timeout
      → phase after ≡ after_stage (length e.stages) e.stage
      → Ruled st held aborted ns e after
  comes :
      ¬ aborted
      → ¬ IsLate st ns e
      → held
      → e.prev_or ≡ false
      → 0 < st.on_timeout
      → phase after ≡ waiting 0 0
      → Ruled st held aborted ns e after
  completes :
      ¬ aborted
      → ¬ IsLate st ns e
      → held
      → e.prev_or ≡ false
      → st.on_timeout ≡ 0
      → st.count ≤ e.done + 1
      → phase after ≡ after_stage (length e.stages) e.stage
      → Ruled st held aborted ns e after
  counts_up :
      ¬ aborted
      → ¬ IsLate st ns e
      → held
      → e.prev_or ≡ false
      → st.on_timeout ≡ 0
      → e.done + 1 < st.count
      → phase after ≡ waiting e.stage (e.done + 1)
      → after.prev_or ≡ true
      → Ruled st held aborted ns e after
  still_holds :
      ¬ aborted
      → ¬ IsLate st ns e
      → held
      → e.prev_or ≡ true
      → phase after ≡ waiting e.stage e.done
      → after.prev_or ≡ true
      → Ruled st held aborted ns e after
  does_not_hold :
      ¬ aborted
      → ¬ IsLate st ns e
      → ¬ held
      → phase after ≡ waiting e.stage e.done
      → after.prev_or ≡ false
      → Ruled st held aborted ns e after

module _ (w : World) (g : Grid) (st : Stage) (terms aborts_ : Terms) (stages : List Stage) (ns : ℕ)
    (e : Evaluator) (waits : e.event ≡ none) (kept : length stages ≡ length e.stages) where
  abbrev seen : Stage
  seen = record st { terms = terms; aborts = aborts_ }

  abbrev moved : Evaluator
  moved = record e { at_ns = ns; stages = stages }
