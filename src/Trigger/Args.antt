-- ===== src/Trigger/Args.antt =====
-- src/oep_client/virtual_bench_trigger.py: what the bench declares, `_args`, and the checks of a condition's
-- arguments and source. A refusal is a rejected Verdict. A declared condition type is one of `COND`.
use oep_client_python.Prelude.{
  ℕ, zero, suc, ◌+◌, ◌-◌, ◌*◌, ◌/◌, ◌%◌, ◌^◌, Bool, false, not, ◌&&◌, ◌||◌, Option, none, some,
  List, [], ◌∷◌, ◌++◌, ltb, leb, ◌==◌, length, drop, get_or, if◌then◌else◌,
}
use oep_client_python.Bytes.{Bytes, field, slice, le_bytes}
use oep_client_python.Registry.{malformed, unsupported, unavailable}
use oep_client_python.VirtualCore.State.{Verdict, accept, reject, ◌>>◌, core_tlv}
use oep_client_python.Trigger.Cond.{
  Kind, level, edge, cross_up, cross_down, above, below, timer, pulse, analog_pulse, pattern,
  serial,
}
use oep_client_python.Trigger.Truth.{bit_of}

-- What the bench declares: the condition types' bits, the protocols' bits, and whether it has trigger_out.
pub record Declared : Type 0 where
  pub types : ℕ
  pub protocols : ℕ
  pub has_out : Bool

-- The bound tracks: their fns, the roles in each one's plan, which are analog, and the group's own roles.
pub record Plan : Type 0 where
  pub fns : List ℕ
  pub track_roles : ℕ → List ℕ
  pub analog : ℕ → Bool
  pub group_roles : List ℕ

abbrev pub member : ℕ → List ℕ → Bool
member x [] = false
member x (y ∷ ys) = y == x || member x ys

-- virtual_bench_capture's wrong_state
unfoldable pub wrong_state : Option ℕ → Bytes
wrong_state none = core_tlv 1 (6 ∷ [])
wrong_state (some fn) = core_tlv 1 (6 ∷ []) ++ core_tlv 5 (le_bytes 2 fn)

-- if test: raise Reject(reason, payload)
abbrev pub refuse_if : Bool → ℕ → Bytes → Verdict (Unit {0})
refuse_if test reason payload = if test then reject reason payload else accept tt

abbrev pub has_bit : ℕ → ℕ → Bool
has_bit bits k = not (bits / 2 ^ k % 2 == 0)

-- caps(full), the declaration on the wire, and caps_of, which reads it.
unfoldable pub caps : Bool → Bytes
caps full =
    4
    ∷ 4
    ∷ 4
    ∷ 1
    ∷ (le_bytes 4 (2 + 4 + 8 + 16 + 128 + 256 + 1024 + (if full then 32 + 64 + 512 + 2048 else 0))
        ++ ((if full then 2 else 0) ∷ le_bytes 4 (if full then 1000 else 0xffffffff)))

unfoldable pub caps_of : Bytes → Declared
caps_of v = record {
  types = field v 4 4;
  protocols = field v 8 1;
  has_out = not (field v 9 4 == 0xffffffff);
}

unfoldable pub pattern_args : Bytes → Verdict Kind
pattern_args v =
    let n = field v 0 1 in
    do
      refuse_if
          (length v == 0
            || n == 0
            || not (length v == 2 + 2 * n)
            || ltb 1 (get_or v (length v - 1) 0))
          malformed []
      accept (pattern (slice v 1 n) (slice v (1 + n) n) (get_or v (length v - 1) 0))

-- protocol event role2 role3 baud(4) bits parity flags n, then the mask and the value
unfoldable pub serial_args : ℕ → ℕ → Bytes → Verdict Kind
serial_args tag protocols v =
    let protocol = field v 0 1 in
    let event = field v 1 1 in
    let baud = field v 4 4 in
    let bits = field v 8 1 in
    let parity = field v 9 1 in
    let n = field v 11 1 in
    do
      refuse_if (ltb (length v) 12) malformed []
      refuse_if (not (length v == 12 + 2 * n) || baud == 0 || ltb 2 parity) malformed []
      refuse_if
          (not (has_bit protocols protocol)
            || not (protocol == 1)
            || not (member event (0 ∷ 4 ∷ 5 ∷ 6 ∷ []))
            || not (leb 5 bits && leb bits 9)
            || (event == 0 && n == 0))
          unsupported (tag ∷ [])
      accept (
          serial protocol event (field v 2 1) (field v 3 1) baud bits parity (field v 10 1) n
            (slice v 12 n) (drop (12 + n) v))

-- A type whose arguments have a fixed size.
unfoldable pub sized : ℕ → Bytes → Bool → Kind → Verdict Kind
sized size v excluded k = do
  refuse_if (not (length v == size)) malformed []
  refuse_if excluded malformed []
  accept k

-- `_args`
unfoldable pub args : ℕ → Bytes → ℕ → ℕ → Verdict Kind
args kind v tag protocols =
    if kind == 6
    then pattern_args v
    else if kind == 11
    then serial_args tag protocols v
    else if kind == 1
    then sized 2 v false (level (field v 0 1) (field v 1 1))
    else if kind == 2
    then sized 1 v false (edge (field v 0 1))
    else if kind == 3
    then sized 8 v false (cross_up (field v 0 4) (field v 4 4))
    else if kind == 4
    then sized 8 v false (cross_down (field v 0 4) (field v 4 4))
    else if kind == 7
    then sized 9 v false (above (field v 0 4) (field v 4 4) (field v 8 1))
    else if kind == 8
    then sized 9 v false (below (field v 0 4) (field v 4 4) (field v 8 1))
    else if kind == 10
    then sized 8 v false (timer (field v 0 8))
    else if kind == 5
    then sized 18 v (ltb 1 (field v 0 1) || ltb 2 (field v 1 1))
        (pulse (field v 0 1) (field v 1 1) (field v 2 8) (field v 10 8))
    else sized 26 v (ltb 1 (field v 8 1) || ltb 2 (field v 9 1)) (
        analog_pulse (field v 0 4) (field v 4 4) (field v 8 1) (field v 9 1) (field v 10 8)
          (field v 18 8))

-- LOGIC_ONLY, ANALOG_ONLY, EXTERNAL by the type's number
abbrev pub logic_only : ℕ → Bool
logic_only kind = member kind (1 ∷ 2 ∷ 5 ∷ 6 ∷ 11 ∷ [])

abbrev pub analog_only : ℕ → Bool
analog_only kind = member kind (3 ∷ 4 ∷ 7 ∷ 8 ∷ 9 ∷ [])

abbrev pub external_kind : ℕ → Bool
external_kind kind = member kind (1 ∷ 2 ∷ 5 ∷ [])

-- any(mask >> r & 1 and r not in mine for r in range(n))
unfoldable pub pattern_strays : Bytes → List ℕ → ℕ → ℕ → Bool
pattern_strays mask mine r zero = false
pattern_strays mask mine r (suc n) =
    (not (bit_of mask r == 0) && not (member r mine)) || pattern_strays mask mine (r + 1) n

-- Whether a condition names a role that is not in the track's plan.
unfoldable pub strays : Kind → ℕ → List ℕ → Bool
strays (pattern mask value when) role mine = pattern_strays mask mine 0 (length mask * 8)
strays (serial protocol event role2 role3 baud bits parity flags n mask value) role mine =
    not (member role mine)
    || (not (role2 == 0xff) && not (member role2 mine))
    || (not (role3 == 0xff) && not (member role3 mine))
strays _ role mine = not (member role mine)

-- The checks of a condition's source once its arguments are read.
unfoldable pub check_source : Plan → ℕ → ℕ → ℕ → ℕ → ℕ → Kind → Verdict (Unit {0})
check_source p tag src fn role kind k =
    if src == 2
    then (do
      refuse_if (not (external_kind kind)) unsupported (tag ∷ [])
      refuse_if (not (fn == 0)) malformed []
      refuse_if (not (role == 1) || not (member role p.group_roles)) unavailable (wrong_state none))
    else if kind == 10
    then accept tt
    else (do
      refuse_if (not (member fn p.fns)) unsupported (tag ∷ [])
      refuse_if (strays k role (p.track_roles fn)) unavailable (wrong_state (some fn))
      refuse_if ((logic_only kind && p.analog fn) || (analog_only kind && not (p.analog fn)))
          unsupported (tag ∷ []))
