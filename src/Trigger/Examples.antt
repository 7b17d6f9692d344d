-- ===== src/Trigger/Examples.antt =====
-- An expression as it is bound and judged, and the theorems at it.
use oep_client_python.Prelude.{
  ℕ, ◌+◌, ◌*◌, ◌<◌, ◌≤◌, ◌≡◌, refl, true, false, none, some, List, [], ◌∷◌, ◌++◌, arith, All,
}
use oep_client_python.Try.{ok}
use oep_client_python.Bytes.{le_bytes}
use oep_client_python.Message.Tlv.{Tlv}
use oep_client_python.VirtualCore.State.{accept, reject}
use oep_client_python.Trigger.Cond.{
  cross_up, cross_down, Cond, new_cond, track, instant, Expression, World, sample_at, level_at,
}
use oep_client_python.Trigger.Truth.{truth, value_truth, cross_truth}
use oep_client_python.Trigger.Crossing.{any_hit, any_below, any_above, value_truth_rearms}
use oep_client_python.Trigger.Parse.{
  read_cond, add_cond, put_cond, conds_loop, read_stage, stages_loop, check_terms, check_stages,
  out_loop, parse_source, parse_sources, parse,
}
use oep_client_python.Trigger.Args.{
  Plan, caps, caps_of, sized, args, strays, check_source, wrong_state,
}
use oep_client_python.Trigger.Evaluator.{
  Event, Evaluator, new_evaluator, current, conds_of, see_term, see_terms, fresh, fresh_terms,
  fresh_stage, enter, grid_fn, advance, decide, step, next_time, grid_now, has_event, run_loop, run,
}
use oep_client_python.Trigger.Grid.{
  reads_track, any_external, slower, fastest, grid, ceil_div, track_next, next_ns, due_ns, sooner,
  with_timers, slowest, period_ns, uncertainty,
}
use oep_client_python.Trigger.Invariant.{IsEvaluator, IsStage}
use oep_client_python.Trigger.Runs.{Rounds, WaitedIn, run-Ran}
use oep_client_python.Trigger.Parsed.{IsExpression, parse-IsExpression, parse-run}

declared_read : caps_of (caps true) ≡ record { types = 0xfbe + 64; protocols = 2; has_out = true }
unfolding caps caps_of
declared_read = refl

-- One stage: the analog track 5's role 0 crosses 100 upwards, with a hysteresis of 10.
abbrev bound : List Tlv
bound =
    (1, 1 ∷ (le_bytes 8 0 ++ (0 ∷ 0 ∷ [])))
    ∷ (3, 0 ∷ 0 ∷ 0 ∷ 1 ∷ 5 ∷ 0 ∷ 0 ∷ 3 ∷ (le_bytes 4 100 ++ le_bytes 4 10))
    ∷ []

abbrev plan : Plan
plan = record { fns = 5 ∷ []; track_roles = λ fn. 0 ∷ []; analog = λ fn. true; group_roles = [] }

abbrev crossing : Cond
crossing = new_cond 5 0 (cross_up 100 10) 3 track

abbrev expression : Expression
expression = record {
  stages =
      (record {
        count = 1;
        within_ns = 0;
        on_timeout = 0;
        terms = (0, crossing ∷ []) ∷ [];
        aborts = [];
      })
      ∷ [];
  holdoff_ns = 0;
  arm = 0;
  rearm = 0;
  out = none;
}

all_of_parse : ℕ
unfolding caps caps_of sized args strays check_source read_cond add_cond put_cond conds_loop
    read_stage stages_loop check_terms check_stages out_loop parse_source parse_sources parse
    wrong_state instant
all_of_parse = 0

parse-bound : parse (caps_of (caps false)) plan bound ≡ accept (some expression)
unfolding all_of_parse
parse-bound = refl

-- A second crossing in the same term is refused: one instant a term.
parse_two :
    parse
      (caps_of (caps false))
      plan
      (bound ++ ((0x83, 0 ∷ 0 ∷ 0 ∷ 1 ∷ 5 ∷ 0 ∷ 0 ∷ 4 ∷ (le_bytes 4 100 ++ le_bytes 4 10)) ∷ []))
    ≡ reject 0x0b (0x83 ∷ [])
unfolding all_of_parse
parse_two = refl

-- A ramp of 10 a sample, at 1 MHz.
abbrev ramp : World
ramp = record {
  caps = λ fn. record {
    rate = record { num = 1000000; den = 1 };
    t0_ns = 0;
    skew = λ role. 0;
    value = λ role i. 10 * i;
  };
  inputs = λ role ns. 1;
}

all_of_run : ℕ
unfolding sample_at level_at truth value_truth cross_truth current conds_of see_term see_terms fresh
    fresh_terms fresh_stage enter reads_track any_external slower fastest grid ceil_div track_next
    next_ns due_ns sooner with_timers slowest period_ns uncertainty grid_fn advance decide step
    next_time grid_now has_event run_loop run
all_of_run = 0

abbrev event_of : Evaluator → ℕ × (ℕ × ℕ)
event_of e = elim e.event [ none ↦ (0, (0, 0)) | some event ↦ event ]

run-ramp :
    (after : Evaluator) × (run ramp 12000 (new_evaluator expression 0) ≡ ok after)
    × (event_of after ≡ (5, (10000, 1000)))
unfolding all_of_run
run-ramp = (_, refl, refl)

expression-staged : All IsStage expression.stages
expression-staged = (omega arith, tt)

run-Ran_example :
    (after : Evaluator) × (run ramp 12000 (new_evaluator expression 0) ≡ ok after)
    × IsEvaluator after
    × (after.event ≡ none → 12000 < next_time ramp 12000 after)
    × ((rounds : List Evaluator) × Rounds ramp 12000 (new_evaluator expression 0) rounds after
        × ((event : Event)
            → after.event ≡ some event
            → (0 < event.1.0)
              × (event.1.0 ≤ 12000)
              × ((k : ℕ) → k < 1 → WaitedIn k (new_evaluator expression 0 ∷ rounds))))
run-Ran_example = run-Ran ramp expression 0 12000 (omega arith) expression-staged

parse-IsExpression_example : IsExpression expression
parse-IsExpression_example =
    parse-IsExpression (caps_of (caps false)) plan bound expression parse-bound

parse-run_example :
    (after : Evaluator) × (run ramp 12000 (new_evaluator expression 0) ≡ ok after)
    × IsEvaluator after
parse-run_example = parse-run (caps_of (caps false)) plan bound expression ramp 0 12000 parse-bound

value_truth_rearms_example :
    ((value_truth ramp (cross_up 100 10) false (some 95) 105 7 crossing).0 ≡ true
      → any_hit ramp
          (cross_up 100 10)
          105
          7
          (95 ∷ 101 ∷ 85 ∷ 100 ∷ [])
          (value_truth ramp (cross_up 100 10) false (some 95) 105 7 crossing).1
        ≡ true
      → any_below 90 (95 ∷ 101 ∷ 85 ∷ 100 ∷ []) ≡ true)
    × ((value_truth ramp (cross_down 100 10) false (some 95) 105 7 crossing).0 ≡ true
        → any_hit ramp
            (cross_down 100 10)
            105
            7
            (95 ∷ 101 ∷ 85 ∷ 100 ∷ [])
            (value_truth ramp (cross_down 100 10) false (some 95) 105 7 crossing).1
          ≡ true
        → any_above 110 (95 ∷ 101 ∷ 85 ∷ 100 ∷ []) ≡ true)
value_truth_rearms_example =
    value_truth_rearms ramp 100 10 95 105 7 (95 ∷ 101 ∷ 85 ∷ 100 ∷ []) crossing
