-- ===== src/Trigger/Decided.antt =====
-- The cases of what a round decides.
use oep_client_python.Prelude.{
  ℕ, ◌+◌, ◌<◌, ◌≤◌, ◌≡◌, refl, ◌⊎◌, inl, inr, Bool, true, false, not, ◌&&◌, some, List, ◌++◌, arith,
  ltb, leb, ◌==◌, length, Bool-cases,
}
use oep_client_python.Trigger.Cond.{Cond, Stage, World}
use oep_client_python.Trigger.Evaluator.{
  Event, Evaluator, conds_of, enter, advance, decide, grid_fn,
}
use oep_client_python.Trigger.Grid.{Grid, uncertainty}

-- What a decision is, the evaluator's condition after it aside.
pub data Decided (w : World) (g : Grid) (st : Stage) (ns : ℕ) (e after : Evaluator) : Type 0 where
  back : (b : Bool) → after ≡ enter 0 ns (record e { prev_or = b }) → Decided w g st ns e after
  on_time_up : (conds : List Cond) → after ≡ advance w g conds true ns e → Decided w g st ns e after
  reached :
      (b : Bool) (conds : List Cond)
      → after ≡ advance w g conds false ns (record e { prev_or = b; done = e.done + 1 })
      → Decided w g st ns e after
  counted :
      (b : Bool)
      → after ≡ record e { prev_or = b; done = e.done + 1 }
      → e.done + 1 < st.count
      → (0 < st.within_ns → ns < e.entered_ns + st.within_ns)
      → Decided w g st ns e after
  unchanged :
      (b : Bool)
      → after ≡ record e { prev_or = b }
      → (0 < st.within_ns → ns < e.entered_ns + st.within_ns)
      → Decided w g st ns e after

pub decide-Decided :
    (w : World) (g : Grid) (st : Stage) (held aborted : Bool) (ns : ℕ) (e : Evaluator)
    → Decided w g st ns e (decide w g st held aborted ns e)
unfolding decide
decide-Decided w g st held true ns e = back e.prev_or refl
decide-Decided w g st held false ns e =
    elim (Bool-cases (not (st.within_ns == 0) && leb (e.entered_ns + st.within_ns) ns)) [
      | inl up ↦ elim (Bool-cases (st.on_timeout == 0)) [
        | inl drops ↦ back e.prev_or (ground (arith, up, drops))
        | inr holds ↦
            on_time_up (conds_of st.terms ++ conds_of st.aborts) (ground (arith, up, holds))
      ]
      | inr early ↦
          let intime : 0 < st.within_ns → ns < e.entered_ns + st.within_ns =
            ground (arith, early) in
          elim (Bool-cases (held && not e.prev_or)) [
            | inl rising ↦ elim (Bool-cases (st.on_timeout == 0)) [
              | inl waits ↦ elim (Bool-cases (leb st.count (e.done + 1))) [
                | inl enough ↦
                    reached held (conds_of st.terms ++ conds_of st.aborts)
                      (ground (arith, early, rising, waits, enough))
                | inr few ↦
                    counted held (ground (arith, early, rising, waits, few)) (ground (arith, few))
                      intime
              ]
              | inr came ↦ back held (ground (arith, early, rising, came))
            ]
            | inr flat ↦ unchanged held (ground (arith, early, flat)) intime
          ]
    ]

-- A stage is left for the next one, or the last one for the event.
pub advance_cases :
    (w : World) (g : Grid) (conds : List Cond) (up : Bool) (ns : ℕ) (e : Evaluator)
    → ((e.stage + 1 < length e.stages) × (advance w g conds up ns e ≡ enter (e.stage + 1) ns e))
      ⊎ ((length e.stages ≤ e.stage + 1)
          × ((event : Event) × (event.1.0 ≡ ns)
              × (advance w g conds up ns e ≡ record e { event = some event })))
unfolding advance
advance_cases w g conds up ns e = elim (Bool-cases (ltb (e.stage + 1) (length e.stages))) [
  | inl more ↦ inl (ground (arith, more), ground (arith, more))
  | inr last ↦
      inr (ground (arith, last), ((grid_fn g, (ns, uncertainty w g conds up)), refl, rw last refl))
]
