-- ===== src/Trigger/Truth.antt =====
-- src/oep_client/virtual_bench_trigger.py: `_truth`, `_pulse` and `_serial`, whether a condition holds at a
-- time, with the condition after what it saw.
use oep_client_python.Prelude.{
  ℕ, zero, suc, ◌+◌, ◌-◌, ◌*◌, ◌/◌, ◌%◌, ◌^◌, Bool, true, false, not, ◌&&◌, ◌||◌, Option, none,
  some, List, [], ◌∷◌, ◌++◌, ltb, leb, ◌==◌, length, take, drop, get_or, bit_and, bit_xor,
  if◌then◌else◌,
}
use oep_client_python.Bytes.{Bytes}
use oep_client_python.Trigger.Cond.{
  Kind, level, edge, cross_up, cross_down, above, below, timer, pulse, analog_pulse, pattern,
  serial, Cond, World, sample_at, level_at,
}

-- The bit k of a number's little-endian bytes.
unfoldable pub bit_of : Bytes → ℕ → ℕ
bit_of bytes k = get_or bytes (k / 8) 0 / 2 ^ (k % 8) % 2

-- `_pulse`: `inside` is whether the line is in the run now, `stuck` whether it was so before arming.
unfoldable pub run_reached : ℕ → ℕ → ℕ → Cond → Bool × Cond
run_reached cond lo ns c = elim c.run_ns [
  | none ↦ (false, c)
  | some began ↦
      if cond == 0 && not c.reached && leb lo (ns - began)
      then (true, record c { reached = true })
      else (false, c)
]

unfoldable pub begin_run : Bool → ℕ → ℕ → Cond → Cond
begin_run stuck cond ns c = elim c.run_ns [
  | some began ↦ c
  | none ↦
      if c.reached
      then c
      else if stuck && not (cond == 0)
      then record c { reached = true }
      else record c { run_ns = some ns }
]

unfoldable pub end_run : ℕ → ℕ → ℕ → ℕ → Cond → Bool × Cond
end_run cond lo hi ns c =
    let after = record c { run_ns = none; reached = false } in
    elim c.run_ns [
      | none ↦ (false, after)
      | some began ↦
          let width = ns - began in
          (
            not (cond == 0) && (if cond == 1 then leb width hi else leb lo width && leb width hi),
            after,
          )
    ]

unfoldable pub pulse_truth : Bool → Bool → ℕ → ℕ → ℕ → ℕ → Cond → Bool × Cond
pulse_truth inside stuck ns cond lo hi c =
    if inside then run_reached cond lo ns (begin_run stuck cond ns c) else end_run cond lo hi ns c

-- The level at the middle of the frame's bit k; there is one from the start bit on.
unfoldable pub frame_bit : World → Cond → ℕ → ℕ → ℕ → ℕ → ℕ
frame_bit w c idle baud start k =
    let at = start + (2 * k + 1) * 1000000000 / (2 * baud) in
    bit_xor (elim (level_at w c at 0) [ none ↦ 0 | some v ↦ v ]) (bit_xor idle 1)

unfoldable pub frame_bits : World → Cond → ℕ → ℕ → ℕ → ℕ → ℕ → List ℕ
frame_bits w c idle baud start k zero = []
frame_bits w c idle baud start k (suc n) =
    frame_bit w c idle baud start k ∷ frame_bits w c idle baud start (k + 1) n

abbrev pub any_set : List ℕ → Bool
any_set [] = false
any_set (b ∷ bs) = not (b == 0) || any_set bs

abbrev pub sum : List ℕ → ℕ
sum [] = 0
sum (b ∷ bs) = b + sum bs

abbrev pub reversed : List ℕ → List ℕ
reversed [] = []
reversed (b ∷ bs) = reversed bs ++ (b ∷ [])

abbrev pub bits_value : List ℕ → ℕ
bits_value [] = 0
bits_value (b ∷ bs) = b + 2 * bits_value bs

-- all(g & k == w & k for …)
unfoldable pub masked_eq : Bytes → Bytes → Bytes → Bool
masked_eq (g ∷ got) (k ∷ mask) (v ∷ value) = bit_and g k == bit_and v k && masked_eq got mask value
masked_eq _ _ _ = true

-- The last n of a list; [-0:] is all of it.
abbrev pub last_bytes : ℕ → Bytes → Bytes
last_bytes n bytes = if n == 0 then bytes else drop (length bytes - n) bytes

-- What a frame that has been received says, its bits from the start bit to the stop bit.
unfoldable pub frame_truth : List ℕ → ℕ → ℕ → ℕ → ℕ → ℕ → Bytes → Bytes → Cond → Bool × Cond
frame_truth at event bits parity flags n mask value c =
    let sent = take bits (drop 1 at) in
    let byte = bits_value (if bit_and flags 1 == 0 then sent else reversed sent) in
    let stop = get_or at (length at - 1) 0 in
    let got = last_bytes n (c.got ++ (byte % 256 ∷ [])) in
    if event == 6
    then (not (any_set (drop 1 at)), c)
    else if event == 4
    then (stop == 0 && any_set (take (length at - 2) (drop 1 at)), c)
    else if event == 5
    then (
      not (parity == 0)
          && not ((sum sent + get_or at (1 + bits) 0) % 2 == (if parity == 1 then 1 else 0)),
      c,
    )
    else (length got == n && masked_eq got mask value, record c { got = got })

unfoldable pub serial_truth :
    World → ℕ → ℕ → ℕ → ℕ → ℕ → ℕ → Bytes → Bytes → ℕ → Option ℕ → ℕ → Cond → Bool × Cond
serial_truth w event baud bits parity flags n mask value v before ns c =
    let idle = if bit_and flags 0x20 == 0 then 1 else 0 in
    let frame = 1 + bits + (if parity == 0 then 0 else 1) in
    elim c.start_ns [
      | none ↦
          let falls : Bool = (elim before [
            | none ↦ false
            | some b ↦ b == idle && not (v == idle)
          ]) in
          (false, if falls then record c { start_ns = some ns } else c)
      | some start ↦
          if ltb ((ns - start) * (2 * baud)) ((2 * frame + 1) * 1000000000)
          then (false, c)
          else frame_truth (frame_bits w c idle baud start 0 (frame + 1)) event bits parity flags n
              mask value (record c { start_ns = none })
    ]

-- A state's condition: whether it holds now, with `when` or after it was seen not to hold.
unfoldable pub state_truth : Bool → ℕ → Cond → Bool × Cond
state_truth hit when c =
    if hit then (not (when == 0) || c.false_seen, c) else (false, record c { false_seen = true })

unfoldable pub edge_truth : ℕ → ℕ → Option ℕ → Bool
edge_truth e v before = elim before [
  | none ↦ false
  | some b ↦ not (v == b) && (e == 2 || (if e == 0 then not (v == 0) else v == 0))
]

-- cross_up and cross_down with what `ready` waits for and what crossing is.
unfoldable pub cross_truth : Bool → Bool → Cond → Bool × Cond
cross_truth away crossed c =
    let ready = c.ready || away in
    if ready && crossed
    then (true, record c { ready = false })
    else (false, record c { ready = ready })

abbrev pub crossed_up : ℕ → Option ℕ → ℕ → Bool
crossed_up value none v = false
crossed_up value (some b) v = ltb b value && leb value v

abbrev pub crossed_down : ℕ → Option ℕ → ℕ → Bool
crossed_down value none v = false
crossed_down value (some b) v = ltb value b && leb v value

-- above and below: a state with hysteresis, kept in `held`.
unfoldable pub held_truth : Bool → ℕ → Cond → Bool × Cond
held_truth held when c =
    let seen = c.false_seen || not held in
    (held && (not (when == 0) || seen), record c { held = held; false_seen = seen })

abbrev pub is_high : ℕ → ℕ → Bool → ℕ → Bool
is_high value hyst held v = if held then leb (value - hyst) v else leb value v

abbrev pub is_low : ℕ → ℕ → Bool → ℕ → Bool
is_low value hyst held v = if held then leb v (value + hyst) else leb v value

-- all(… for r in range(n * 8) if mask >> r & 1), from role r on
unfoldable pub pattern_hit : World → ℕ → Bytes → Bytes → ℕ → ℕ → ℕ → Bool
unfolding bit_of
pattern_hit w fn mask value ns r zero = true
pattern_hit w fn mask value ns r (suc n) =
    let rest = pattern_hit w fn mask value ns (r + 1) n in
    (bit_of mask r == 0
      || (elim (sample_at w fn r ns 0) [ none ↦ false | some v ↦ v == bit_of value r ]))
    && rest

-- The kinds that look at the value before and now: `first` is whether there was none kept, and then `before`
-- is the last value before arming.
unfoldable pub value_truth : World → Kind → Bool → Option ℕ → ℕ → ℕ → Cond → Bool × Cond
value_truth w (pulse l cond lo hi) first before v ns c =
    let stuck : Bool = first && (elim before [ none ↦ false | some b ↦ b == l ]) in
    pulse_truth (v == l) stuck ns cond lo hi c
value_truth w (analog_pulse value hyst side cond lo hi) first before v ns c =
    let beyond = λ (x : ℕ). if side == 0 then leb x value else leb value x in
    let stuck : Bool = first && (elim before [ none ↦ false | some b ↦ beyond b ]) in
    let kept = c.held || stuck in
    let held = if side == 0 then is_low value hyst kept v else is_high value hyst kept v in
    pulse_truth held stuck ns cond lo hi (record c { held = held })
value_truth w (serial protocol event role2 role3 baud bits parity flags n mask value) first before v
      ns c =
    serial_truth w event baud bits parity flags n mask value v (if first then none else before) ns c
value_truth w (level l when) first before v ns c = state_truth (v == l) when c
value_truth w (edge e) first before v ns c = (edge_truth e v before, c)
value_truth w (cross_up value hyst) first before v ns c =
    cross_truth (ltb v (value - hyst)) (crossed_up value before v) c
value_truth w (cross_down value hyst) first before v ns c =
    cross_truth (ltb (value + hyst) v) (crossed_down value before v) c
value_truth w (above value hyst when) first before v ns c =
    held_truth (is_high value hyst c.held v) when c
value_truth w (below value hyst when) first before v ns c =
    held_truth (is_low value hyst c.held v) when c
value_truth w (timer delay) first before v ns c = (false, c)
value_truth w (pattern mask value when) first before v ns c = (false, c)

-- `_truth`, `entered` the time the stage was entered.
unfoldable pub truth : World → ℕ → ℕ → ℕ → Cond → Bool × Cond
unfolding pattern_hit
truth w entered ns prev c = elim c.kind [
  | timer delay ↦ (ltb prev (entered + delay) && leb (entered + delay) ns, c)
  | pattern mask value when ↦
      state_truth (pattern_hit w c.fn mask value ns 0 (length mask * 8)) when c
  | _ ↦ elim (level_at w c ns 0) [
    | none ↦ (false, c)
    | some v ↦ elim c.previous [
      | none ↦ value_truth w c.kind true (level_at w c ns 1) v ns (record c { previous = some v })
      | some b ↦ value_truth w c.kind false (some b) v ns (record c { previous = some v })
    ]
  ]
]
