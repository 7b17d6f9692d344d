-- ===== src/Trigger/Cond.antt =====
-- src/oep_client/virtual_bench_trigger.py: `Cond`, `Stage` and `Expression`, and what an evaluator reads of
-- the tracks it judges.
use oep_client_python.Prelude.{
  ℕ, ◌+◌, ◌-◌, ◌*◌, ◌/◌, Bool, true, false, Option, none, some, List, [], ltb, if◌then◌else◌,
}
use oep_client_python.Bytes.{Bytes}

-- A condition's type with its arguments, in the order of `ARGS` and `SERIAL_HEAD`.
pub data Kind : Type 0 where
  level : (level when : ℕ) → Kind
  edge : (edge : ℕ) → Kind
  cross_up cross_down : (value hyst : ℕ) → Kind
  above below : (value hyst when : ℕ) → Kind
  timer : (delay : ℕ) → Kind
  pulse : (level cond lo hi : ℕ) → Kind
  analog_pulse : (value hyst side cond lo hi : ℕ) → Kind
  pattern : (mask value : Bytes) (when : ℕ) → Kind
  serial : (protocol event role2 role3 baud bits parity flags n : ℕ) (mask value : Bytes) → Kind

-- src 1 or 2
pub data Source : Type 0 where
  track external : Source

pub record Cond : Type 0 where
  pub fn : ℕ
  pub role : ℕ
  pub kind : Kind
  pub tag : ℕ
  pub src : Source
  pub previous : Option ℕ
  pub false_seen : Bool
  pub ready : Bool
  pub held : Bool
  pub run_ns : Option ℕ
  pub reached : Bool
  pub start_ns : Option ℕ
  pub got : Bytes

-- Cond(fn, role, kind, args, tag, src=src)
abbrev pub new_cond : ℕ → ℕ → Kind → ℕ → Source → Cond
new_cond fn role kind tag src = record {
  fn = fn;
  role = role;
  kind = kind;
  tag = tag;
  src = src;
  previous = none;
  false_seen = false;
  ready = true;
  held = false;
  run_ns = none;
  reached = false;
  start_ns = none;
  got = [];
}

-- kind in INSTANT
unfoldable pub instant : Kind → Bool
instant (level l when) = false
instant (edge e) = true
instant (cross_up value hyst) = true
instant (cross_down value hyst) = true
instant (above value hyst when) = false
instant (below value hyst when) = false
instant (timer delay) = true
instant (pulse l cond lo hi) = true
instant (analog_pulse value hyst side cond lo hi) = true
instant (pattern mask value when) = false
instant (serial protocol event role2 role3 baud bits parity flags n mask value) = true

-- The dicts of terms and aborts: the term's number and its conditions.
abbrev pub Terms : Type 0
Terms = List (ℕ × List Cond)

pub record Stage : Type 0 where
  pub count : ℕ
  pub within_ns : ℕ
  pub on_timeout : ℕ
  pub terms : Terms
  pub aborts : Terms

abbrev pub empty_stage : Stage
empty_stage = record { count = 1; within_ns = 0; on_timeout = 0; terms = []; aborts = [] }

pub record Expression : Type 0 where
  pub stages : List Stage
  pub holdoff_ns : ℕ
  pub arm : ℕ
  pub rearm : ℕ
  pub out : Option (ℕ × (ℕ × ℕ))

-- A Fraction that is not negative, its denominator above 0.
pub record Rate : Type 0 where
  pub num : ℕ
  pub den : ℕ

-- What the evaluator reads of a track's capture: `value` is the value of a role at a sample.
pub record Track : Type 0 where
  pub rate : Rate
  pub t0_ns : ℕ
  pub skew : ℕ → ℕ
  pub value : ℕ → ℕ → ℕ

-- `caps`, and the levels of the external inputs.
pub record World : Type 0 where
  pub caps : ℕ → Track
  pub inputs : ℕ → ℕ → ℕ

-- Fraction(ns) * rate // 1_000_000_000
abbrev pub samples_in : Rate → ℕ → ℕ
samples_in rate ns = ns * rate.num / (rate.den * 1000000000)

-- `_sample_at`: none before the track's first sample, also when that is so of the sample `back` before.
unfoldable pub sample_at : World → ℕ → ℕ → ℕ → ℕ → Option ℕ
sample_at w fn role ns back =
    let cap = w.caps fn in
    let from = cap.t0_ns + cap.skew role in
    let i = samples_in cap.rate (ns - from) in
    if ltb ns from then none else if ltb i back then none else some (cap.value role (i - back))

-- `_level_at`: an external input is read `back` ticks of EXTERNAL_HZ earlier, 1000 ns each.
unfoldable pub level_at : World → Cond → ℕ → ℕ → Option ℕ
unfolding sample_at
level_at w c ns back = elim c.src [
  | external ↦ some (w.inputs c.role (ns - back * 1000))
  | track ↦ sample_at w c.fn c.role ns back
]
