-- ===== src/Trigger/Evaluator.antt =====
-- src/oep_client/virtual_bench_trigger.py: `Evaluator`, which runs an expression over the tracks' samples.
-- Each round of `run` moves on to the next time at which a condition may change.
use oep_client_python.Prelude.{
  ℕ, zero, suc, ◌+◌, ◌-◌, Bool, true, false, not, ◌&&◌, ◌||◌, Option, none, some, List, [], ◌∷◌,
  ◌++◌, map, ltb, leb, ◌==◌, length, get_or, set, if◌then◌else◌,
}
use oep_client_python.Try.{Try, ok, raise, loop_bound}
use oep_client_python.Trigger.Cond.{Cond, Stage, Terms, empty_stage, Expression, World}
use oep_client_python.Trigger.Truth.{truth}
use oep_client_python.Trigger.Grid.{
  Grid, grid, next_ns, with_timers, uncertainty, by_track, by_input, timers_only,
}

-- The event: fn, time and uncertainty in ns.
abbrev pub Event : Type 0
Event = ℕ × (ℕ × ℕ)

pub record Evaluator : Type 0 where
  pub stages : List Stage
  pub stage : ℕ
  pub entered_ns : ℕ
  pub done : ℕ
  pub prev_or : Bool
  pub at_ns : ℕ
  pub event : Option Event

-- Evaluator(expr, caps, begin_ns)
abbrev pub new_evaluator : Expression → ℕ → Evaluator
new_evaluator expr begin_ns = record {
  stages = expr.stages;
  stage = 0;
  entered_ns = begin_ns;
  done = 0;
  prev_or = false;
  at_ns = begin_ns;
  event = none;
}

-- self.expr.stages[self.stage]; the index is always one of the list.
unfoldable pub current : Evaluator → Stage
current e = get_or e.stages e.stage empty_stage

-- for c in term, of every term
unfoldable pub conds_of : Terms → List Cond
conds_of [] = []
conds_of ((k, term) ∷ terms) = term ++ conds_of terms

-- term[…] after each of its conditions has seen a time, and whether all held
unfoldable pub see_term : World → ℕ → ℕ → ℕ → List Cond → Bool × List Cond
see_term w entered ns prev [] = (true, [])
see_term w entered ns prev (c ∷ term) =
    let (holds, c') = truth w entered ns prev c in
    let (all, term') = see_term w entered ns prev term in (holds && all, c' ∷ term')

-- Whether any of the terms holds, and the terms after it.
unfoldable pub see_terms : World → ℕ → ℕ → ℕ → Terms → Bool × Terms
see_terms w entered ns prev [] = (false, [])
see_terms w entered ns prev ((k, term) ∷ terms) =
    let (holds, term') = see_term w entered ns prev term in
    let (any, terms') = see_terms w entered ns prev terms in (holds || any, (k, term') ∷ terms')

-- `_enter` of a condition and of a stage's terms
unfoldable pub fresh : Cond → Cond
fresh c = record c {
  false_seen = false;
  previous = none;
  run_ns = none;
  reached = false;
  start_ns = none;
}

unfoldable pub fresh_terms : Terms → Terms
fresh_terms [] = []
fresh_terms ((k, term) ∷ terms) = (k, map fresh term) ∷ fresh_terms terms

unfoldable pub fresh_stage : Stage → Stage
fresh_stage st = record st { terms = fresh_terms st.terms; aborts = fresh_terms st.aborts }

unfoldable pub enter : ℕ → ℕ → Evaluator → Evaluator
enter stage ns e = record e {
  stage = stage;
  entered_ns = ns;
  done = 0;
  prev_or = false;
  stages = set e.stages stage (fresh_stage (get_or e.stages stage empty_stage));
}

unfoldable pub grid_fn : Grid → ℕ
grid_fn (by_track fn) = fn
grid_fn by_input = 0
grid_fn timers_only = 0

unfoldable pub advance : World → Grid → List Cond → Bool → ℕ → Evaluator → Evaluator
advance w g conds timed_out ns e =
    if ltb (e.stage + 1) (length e.stages)
    then enter (e.stage + 1) ns e
    else record e { event = some (grid_fn g, (ns, uncertainty w g conds timed_out)) }

-- What `_step` does once it is known whether a term and an abort hold.
unfoldable pub decide : World → Grid → Stage → Bool → Bool → ℕ → Evaluator → Evaluator
decide w g st held aborted ns e =
    let conds = conds_of st.terms ++ conds_of st.aborts in
    let risen = record e { prev_or = held } in
    let counted = record risen { done = e.done + 1 } in
    if aborted
    then enter 0 ns e
    else if not (st.within_ns == 0) && leb (e.entered_ns + st.within_ns) ns
    then (if st.on_timeout == 0 then enter 0 ns e else advance w g conds true ns e)
    else if held && not e.prev_or
    then (if not (st.on_timeout == 0)
        then enter 0 ns risen
        else if leb st.count counted.done
        then advance w g conds false ns counted
        else counted)
    else risen

-- `_step`, with `run`'s `self.at_ns = nxt`
unfoldable pub step : World → Grid → ℕ → Evaluator → Evaluator
step w g ns e =
    let st = current e in
    let (held, terms) = see_terms w e.entered_ns ns e.at_ns st.terms in
    let (aborted, aborts) = see_terms w e.entered_ns ns e.at_ns st.aborts in
    let st' = record st { terms = terms; aborts = aborts } in
    decide w g st' held aborted ns (record e { at_ns = ns; stages = set e.stages e.stage st' })

-- The next time to judge at, in the stage that is running.
unfoldable pub next_time : World → ℕ → Evaluator → ℕ
next_time w now e =
    let st = current e in
    let conds = conds_of st.terms ++ conds_of st.aborts in
    let nxt = with_timers e.entered_ns e.at_ns conds (next_ns w (grid w conds) e.at_ns now) in
    if not (st.within_ns == 0) && ltb (e.entered_ns + st.within_ns) nxt
    then e.entered_ns + st.within_ns
    else nxt

unfoldable pub grid_now : World → Evaluator → Grid
grid_now w e = grid w (conds_of (current e).terms ++ conds_of (current e).aborts)

unfoldable pub has_event : Option Event → Bool
has_event none = false
has_event (some event) = true

-- `run`: the evaluator once there is an event, or nothing more to judge up to `now`.
unfoldable pub run_loop : ℕ → World → ℕ → Evaluator → Try Evaluator
run_loop zero w now e = raise loop_bound
run_loop (suc fuel) w now e =
    let nxt = next_time w now e in
    let rest = run_loop fuel w now (step w (grid_now w e) nxt e) in
    if has_event e.event || ltb now nxt then ok e else rest

-- Each round takes the time on by 1 ns at least.
unfoldable pub run : World → ℕ → Evaluator → Try Evaluator
unfolding run_loop
run w now e = run_loop (now - e.at_ns + 1) w now e
