-- ===== src/Trigger/Runs.antt =====
-- The evaluator's loop: that it ends, the rounds it makes, and the stages they were in.
use oep_client_python.Prelude.{
  ℕ, zero, suc, ◌+◌, ◌-◌, ◌<◌, ◌≤◌, ◌≡◌, refl, subst, ◌∙◌, inl, inr, false, none, some, List, [],
  ◌∷◌, map, ◌⊎◌, arith, ltb, length, All, Bool-cases, Option-cases,
}
use oep_client_python.Try.{ok}
use oep_client_python.Trigger.Cond.{Expression, World}
use oep_client_python.Trigger.Evaluator.{
  Event, Evaluator, new_evaluator, current, grid_now, next_time, has_event, step, run_loop, run,
}
use oep_client_python.Trigger.Invariant.{IsStage, IsEvaluator, waiting, fired, phase, IsStage-ok}
use oep_client_python.Trigger.Steps.{Stepped, step-Stepped, fired_phase}
use oep_client_python.Trigger.Phases.{Follows, Visits, Follows-more, Follows-Visits}
use oep_client_python.Trigger.Next.{next_time-later}

-- The rounds of a run, one after the other: each is made before there is an event, at the next time to judge
-- at, which is not past `now`.
unfoldable pub Rounds : World → ℕ → Evaluator → List Evaluator → Evaluator → Type 0
Rounds w now e [] after = e ≡ after
Rounds w now e (x ∷ rounds) after =
    (e.event ≡ none)
    × (next_time w now e ≤ now)
    × (x ≡ step w (grid_now w e) (next_time w now e) e)
    × Rounds w now x rounds after

-- What `run` gives: an evaluator as it should be, at an event or with nothing more to judge, and the way there.
pub record Ran (w : World) (now : ℕ) (e after : Evaluator) : Type 0 where
  pub sound : IsEvaluator after
  pub rounds : List Evaluator
  pub made : Rounds w now e rounds after
  pub follows : Follows (length e.stages) (phase e) (map phase rounds) (phase after)
  pub ended : after.event ≡ none → now < next_time w now after
  pub in_time :
      (event : Event) → after.event ≡ some event → (e.at_ns < event.1.0) × (event.1.0 ≤ now)

has_event-none : (e : Evaluator) → e.event ≡ none → has_event e.event ≡ false
unfolding has_event
has_event-none e h = ground (arith, h)

run_loop-event :
    (fuel : ℕ) (w : World) (now : ℕ) (e : Evaluator) (event : Event)
    → 0 < fuel
    → e.event ≡ some event
    → run_loop fuel w now e ≡ ok e
unfolding run_loop has_event
run_loop-event zero w now e event lt h = absurd (omega (arith, lt))
run_loop-event (suc fuel) w now e event lt h = ground (arith, h)

run_loop-next :
    (fuel : ℕ) (w : World) (now : ℕ) (e : Evaluator)
    → e.event ≡ none
    → ltb now (next_time w now e) ≡ false
    → run_loop (suc fuel) w now e
      ≡ run_loop fuel w now (step w (grid_now w e) (next_time w now e) e)
unfolding run_loop
run_loop-next fuel w now e waits more = rw (has_event-none e waits, more) refl

-- A round and the rest of the run.
Ran-next :
    (w : World) (now nxt : ℕ) (e e' after : Evaluator)
    → e.at_ns < nxt
    → Stepped nxt e e'
    → Rounds w now e (e' ∷ []) e'
    → Ran w now e' after
    → Ran w now e after
unfolding Rounds
Ran-next w now nxt e e' after later stepped one ran = record {
  sound = ran.sound;
  rounds = e' ∷ ran.rounds;
  made = (one.0, one.1, one.2, ran.made);
  follows =
      Follows-more (length e.stages) (length e'.stages) (phase e) (phase e') (phase after)
        (map phase ran.rounds) stepped.kept stepped.moves ran.follows;
  ended = ran.ended;
  in_time = λ event h.
      let (from, to) = ran.in_time event h in (omega (arith, from, later, stepped.at), to);
}

Ran-event :
    (w : World) (now nxt : ℕ) (e e' : Evaluator) (event : Event)
    → e.at_ns < nxt
    → nxt ≤ now
    → Stepped nxt e e'
    → Rounds w now e (e' ∷ []) e'
    → e'.event ≡ some event
    → Ran w now e e'
unfolding Follows
Ran-event w now nxt e e' event later le stepped one happened = record {
  sound = stepped.sound;
  rounds = e' ∷ [];
  made = one;
  follows = (stepped.moves, refl);
  ended = λ h. absurd (cc (h, happened));
  in_time = λ other h.
      let stamp = stepped.stamped other h in
      (omega (arith, stamp, later), omega (arith, stamp, le));
}

-- The loop has enough fuel.
run_loop-Ran :
    (fuel : ℕ) (w : World) (now : ℕ) (e : Evaluator)
    → IsEvaluator e
    → e.event ≡ none
    → now - e.at_ns < fuel
    → (after : Evaluator) × (run_loop fuel w now e ≡ ok after) × Ran w now e after
unfolding run_loop
run_loop-Ran zero w now e sound waits lt = absurd (omega (arith, lt))
run_loop-Ran (suc fuel) w now e sound waits lt = elim (Bool-cases (ltb now (next_time w now e))) [
  | inl over ↦ (
    e,
    ground (arith, over),
    record {
      sound = sound;
      rounds = [];
      made = unfold Rounds in refl;
      follows = unfold Follows in refl;
      ended = λ _. ground (arith, over);
      in_time = λ event h. absurd (cc (h, waits));
    },
  )
  | inr more ↦
      let nxt = next_time w now e in
      let later = next_time-later w now e sound waits in
      let stepped = step-Stepped w (grid_now w e) nxt e sound waits (omega (arith, later)) in
      let e' = step w (grid_now w e) nxt e in
      let one = run_loop-next fuel w now e waits more in
      let le : nxt ≤ now = ground (arith, more) in
      let round : Rounds w now e (e' ∷ []) e' = unfold Rounds in (waits, le, refl, refl) in
      elim (Option-cases e'.event) [
        | inl none_yet ↦
            let (after, rest, ran) =
              run_loop-Ran fuel w now e' stepped.sound none_yet
                (omega (arith, lt, later, le, stepped.at)) in
            (after, one ∙ rest, Ran-next w now nxt e e' after later stepped round ran)
        | inr (event, happened) ↦ (
          e',
          one ∙ run_loop-event fuel w now e' event (omega (arith, lt, later, le)) happened,
          Ran-event w now nxt e e' event later le stepped round happened,
        )
      ]
]

new_evaluator-IsEvaluator :
    (expr : Expression) (begin : ℕ)
    → 0 < length expr.stages
    → All IsStage expr.stages
    → IsEvaluator (new_evaluator expr begin)
unfolding current
new_evaluator-IsEvaluator expr begin above staged = record {
  in_stage = above;
  stages_ok = staged;
  entered = omega arith;
  below_count = λ _. (IsStage-ok (new_evaluator expr begin) 0 staged).counts;
  in_time = λ _ h. omega (arith, h);
}

-- One of the states waits in the stage k.
unfoldable pub WaitedIn : ℕ → List Evaluator → Type 0
WaitedIn k [] = ⊥
WaitedIn k (e ∷ states) = ((e.event ≡ none) × (e.stage ≡ k)) ⊎ WaitedIn k states

phase-waiting : (e : Evaluator) (k d : ℕ) → phase e ≡ waiting k d → (e.event ≡ none) × (e.stage ≡ k)
unfolding phase
phase-waiting e k d h = elim (Option-cases e.event) [
  | inl waits ↦ ground (arith, h, waits)
  | inr (event, happened) ↦ absurd (ground (arith, h, happened))
]

Visits-WaitedIn :
    (k : ℕ) (e : Evaluator) (rounds : List Evaluator)
    → Visits k (phase e) (map phase rounds)
    → WaitedIn k (e ∷ rounds)
unfolding Visits WaitedIn
Visits-WaitedIn k e [] (d, h) = inl (phase-waiting e k d h)
Visits-WaitedIn k e (x ∷ rounds) (inl (d, h)) = inl (phase-waiting e k d h)
Visits-WaitedIn k e (x ∷ rounds) (inr later) = inr (Visits-WaitedIn k x rounds later)

Ran-fired :
    (w : World) (expr : Expression) (begin now : ℕ) (after : Evaluator)
    → (ran : Ran w now (new_evaluator expr begin) after) → (event : Event)
    → after.event ≡ some event
    → Follows (length expr.stages) (waiting 0 0) (map phase ran.rounds) fired
unfolding phase
Ran-fired w expr begin now after ran event h =
    subst (λ q. Follows (length expr.stages) (waiting 0 0) (map phase ran.rounds) q)
      (fired_phase after event h) ran.follows

-- Judging an expression up to any time ends, its loop's fuel is enough, in a state in which the invariant
-- holds; then there is an event or no time to judge at is left. The state is the one that the rounds of the
-- run lead to, each a step at the next time to judge at. An event's time is after the beginning and not past
-- that time, and if there is one, every stage of the expression was waited in at the beginning or after one of
-- these rounds.
pub run-Ran :
    (w : World) (expr : Expression) (begin now : ℕ)
    → 0 < length expr.stages
    → All IsStage expr.stages
    → let e = new_evaluator expr begin in
      (after : Evaluator) × (run w now e ≡ ok after)
      × IsEvaluator after
      × (after.event ≡ none → now < next_time w now after)
      × ((rounds : List Evaluator) × Rounds w now e rounds after
          × ((event : Event)
              → after.event ≡ some event
              → (begin < event.1.0)
                × (event.1.0 ≤ now)
                × ((k : ℕ) → k < length expr.stages → WaitedIn k (e ∷ rounds))))
unfolding run phase
run-Ran w expr begin now above staged =
    let e = new_evaluator expr begin in
    let sound = new_evaluator-IsEvaluator expr begin above staged in
    let (after, r, ran) = run_loop-Ran (now - begin + 1) w now e sound refl (omega arith) in
    (
      after,
      r,
      ran.sound,
      ran.ended,
      (
        ran.rounds,
        ran.made,
        λ event h.
            let (from, to) = ran.in_time event h in
            let path = map phase ran.rounds in
            let follows : Follows (length expr.stages) (waiting 0 0) path fired =
              Ran-fired w expr begin now after ran event h in
            (
              from,
              to,
              λ k lt.
                  Visits-WaitedIn k e ran.rounds
                    (Follows-Visits (length expr.stages) k 0 0 path (omega arith) lt follows),
            ),
      ),
    )
