-- ===== src/Trigger.antt =====
-- src/oep_client/virtual_bench_trigger.py: the trigger source of a capture group, an expression of stages of
-- or-ed terms of and-ed conditions, and its evaluation as time passes.
pub mod Cond
pub mod Truth
pub mod Crossing
pub mod Args
pub mod Parse
pub mod Parsed
pub mod Grid
pub mod Evaluator
pub mod Invariant
mod Decided
pub mod Steps
pub mod Holds
pub mod Rules
pub mod Phases
pub mod Next
pub mod Runs
mod Examples
