-- ===== src/Trigger/Grid.antt =====
-- src/oep_client/virtual_bench_trigger.py: the times at which a stage is judged (`_grid`, `_next_ns`), and the
-- uncertainty of an event.
use oep_client_python.Prelude.{
  ℕ, ◌+◌, ◌-◌, ◌*◌, ◌/◌, Bool, true, false, ◌&&◌, ◌||◌, Option, none, some, List, [], ◌∷◌, ltb, max,
  if◌then◌else◌,
}
use oep_client_python.Trigger.Cond.{Cond, timer, track, external, Rate, World}

-- c.kind != COND["timer"] and c.src == SRC["track"]; any(c.src == SRC["external"])
unfoldable pub reads_track : Cond → Bool
reads_track c = elim c.kind [
  | timer delay ↦ false
  | _ ↦ elim c.src [ track ↦ true | external ↦ false ]
]

unfoldable pub any_external : List Cond → Bool
any_external [] = false
any_external (c ∷ conds) = (elim c.src [ track ↦ false | external ↦ true ]) || any_external conds

unfoldable pub slower : Rate → Rate → Bool
slower a b = ltb (a.num * b.den) (b.num * a.den)

-- max(tracks, key=…): of tracks of one rate, the first.
unfoldable pub fastest : World → Option ℕ → List Cond → Option ℕ
fastest w best [] = best
fastest w best (c ∷ conds) =
    let better : Option ℕ = (elim best [
      | none ↦ some c.fn
      | some f ↦ if slower (w.caps f).rate (w.caps c.fn).rate then some c.fn else some f
    ]) in
    fastest w (if reads_track c then better else best) conds

abbrev pub external_rate : Rate
external_rate = record { num = 1000000; den = 1 }

-- `_grid`: what sets the times to judge at.
pub data Grid : Type 0 where
  by_track : ℕ → Grid
  by_input timers_only : Grid

unfoldable pub grid : World → List Cond → Grid
grid w conds = elim (fastest w none conds) [
  | none ↦ if any_external conds then by_input else timers_only
  | some fn ↦
      if any_external conds && slower (w.caps fn).rate external_rate then by_input else by_track fn
]

-- -(-a // b)
unfoldable pub ceil_div : ℕ → ℕ → ℕ
ceil_div a b = (a + (b - 1)) / b

-- int(t0 + i * 1_000_000_000 / rate), i the number of the sample after `at`; it is not above 0 when `at` is
-- before t0.
unfoldable pub track_next : Rate → ℕ → ℕ → ℕ
track_next rate t0 at =
    let ns = rate.den * 1000000000 in
    if ltb at t0
    then t0 - ceil_div ((ceil_div ((t0 - at) * rate.num) ns - 1) * ns) rate.num
    else t0 + ((at - t0) * rate.num / ns + 1) * ns / rate.num

-- `_next_ns`, with `run`'s step for it: 1000 ns for an external input.
unfoldable pub next_ns : World → Grid → ℕ → ℕ → ℕ
unfolding track_next
next_ns w (by_track fn) at now = max (at + 1) (track_next (w.caps fn).rate (w.caps fn).t0_ns at)
next_ns w by_input at now = (at / 1000 + 1) * 1000
next_ns w timers_only at now = at + max 1 (now - at)

-- When a timer is due, and the sooner of two times, the second one if it is after `at`.
unfoldable pub due_ns : ℕ → Cond → Option ℕ
due_ns entered c = elim c.kind [ timer delay ↦ some (entered + delay) | _ ↦ none ]

unfoldable pub sooner : ℕ → ℕ → Option ℕ → ℕ
sooner at nxt none = nxt
sooner at nxt (some ns) = if ltb at ns && ltb ns nxt then ns else nxt

-- The least of `nxt` and the timers' times after `at`.
unfoldable pub with_timers : ℕ → ℕ → List Cond → ℕ → ℕ
with_timers entered at [] nxt = nxt
with_timers entered at (c ∷ conds) nxt =
    with_timers entered at conds (sooner at nxt (due_ns entered c))

-- The rates of `_advance`: those of the tracks looked at, and the slowest with the external input's.
unfoldable pub slowest : World → Option Rate → List Cond → Option Rate
slowest w least [] = least
slowest w least (c ∷ conds) =
    let rate = (w.caps c.fn).rate in
    let worse : Option Rate = (elim least [
      | none ↦ some rate
      | some r ↦ if slower rate r then some rate else some r
    ]) in
    slowest w (if reads_track c then worse else least) conds

unfoldable pub period_ns : Rate → ℕ
period_ns rate = ceil_div (rate.den * 1000000000) rate.num

unfoldable pub uncertainty : World → Grid → List Cond → Bool → ℕ
uncertainty w g conds timed_out =
    let start = if any_external conds then some external_rate else none in
    let unc : ℕ = (elim (slowest w start conds) [ none ↦ 0 | some r ↦ period_ns r ]) in
    elim g [
      | by_track fn ↦ if timed_out then max unc (period_ns (w.caps fn).rate) else unc
      | _ ↦ unc
    ]
