-- ===== src/Trigger/Next.antt =====
-- The next time to judge at is later than the one before.
use oep_client_python.Prelude.{ℕ, ◌<◌, ◌≡◌, Option, none, some, List, [], ◌∷◌, ◌++◌, arith}
use oep_client_python.Trigger.Cond.{Cond, World}
use oep_client_python.Trigger.Evaluator.{Evaluator, current, conds_of, next_time}
use oep_client_python.Trigger.Grid.{
  Grid, by_track, by_input, timers_only, grid, next_ns, due_ns, sooner, with_timers,
}
use oep_client_python.Trigger.Invariant.{IsEvaluator}

next_ns-later : (w : World) (g : Grid) (at now : ℕ) → at < next_ns w g at now
unfolding next_ns
next_ns-later w (by_track fn) at now = omega arith
next_ns-later w by_input at now = omega arith
next_ns-later w timers_only at now = omega arith

sooner-later : (at nxt : ℕ) (due : Option ℕ) → at < nxt → at < sooner at nxt due
unfolding sooner
sooner-later at nxt none h = h
sooner-later at nxt (some ns) h = ground arith

with_timers-later :
    (entered at : ℕ) (conds : List Cond) (nxt : ℕ)
    → at < nxt
    → at < with_timers entered at conds nxt
unfolding with_timers
with_timers-later entered at [] nxt h = h
with_timers-later entered at (c ∷ conds) nxt h =
    with_timers-later entered at conds (sooner at nxt (due_ns entered c))
      (sooner-later at nxt (due_ns entered c) h)

pub next_time-later :
    (w : World) (now : ℕ) (e : Evaluator)
    → IsEvaluator e
    → e.event ≡ none
    → e.at_ns < next_time w now e
unfolding next_time
next_time-later w now e sound waits =
    let conds = conds_of (current e).terms ++ conds_of (current e).aborts in
    let later =
      with_timers-later e.entered_ns e.at_ns conds (next_ns w (grid w conds) e.at_ns now)
        (next_ns-later w (grid w conds) e.at_ns now) in
    let early = sound.in_time waits in ground (arith, later, early)
