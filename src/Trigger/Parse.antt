-- ===== src/Trigger/Parse.antt =====
-- src/oep_client/virtual_bench_trigger.py: `parse`, the expression of a bind's TLVs. A refusal is a
-- rejected Verdict.
use oep_client_python.Prelude.{
  ℕ, Bool, true, false, not, ◌&&◌, ◌||◌, Option, none, some, List, [], ◌∷◌, ◌++◌, ltb, leb, ◌==◌,
  length, drop, get_or, set, replicate, bit_and, if◌then◌else◌,
}
use oep_client_python.Bytes.{field}
use oep_client_python.Registry.{malformed, unsupported, unavailable}
use oep_client_python.Message.Tlv.{Tlv}
use oep_client_python.VirtualCore.State.{Verdict, accept, reject, ◌>>=◌, ◌>>◌}
use oep_client_python.Trigger.Cond.{
  track, external, Cond, new_cond, instant, Terms, Stage, empty_stage, Expression,
}
use oep_client_python.Trigger.Args.{
  Declared, Plan, member, wrong_state, refuse_if, has_bit, args, check_source,
}

-- One cond TLV: its stage, whether it is of the aborts, its term and the condition.
unfoldable pub read_cond : Declared → Plan → ℕ → Tlv → Verdict (ℕ × (Bool × (ℕ × Cond)))
read_cond d p n (t, v) =
    let k = field v 0 1 in
    let part = field v 1 1 in
    let term = field v 2 1 in
    let src = field v 3 1 in
    let fn = field v 4 2 in
    let role = field v 6 1 in
    let kind = field v 7 1 in
    do
      refuse_if (ltb (length v) 8) malformed []
      refuse_if (leb n k || ltb 1 part) malformed []
      refuse_if
          (kind == 0
            || leb 32 kind
            || not (has_bit d.types kind)
            || leb 4 term
            || not (src == 1 || src == 2))
          unsupported (t ∷ [])
      a ← args kind (drop 8 v) t d.protocols
      _ ← check_source p t src fn role kind a
      accept (k, (part == 1, (term, new_cond fn role a t (if src == 2 then external else track))))

-- where.setdefault(term, []).append(cond)
unfoldable pub add_cond : ℕ → Cond → Terms → Terms
add_cond term c [] = (term, c ∷ []) ∷ []
add_cond term c ((k, conds) ∷ terms) =
    let more = add_cond term c terms in
    if k == term then (k, conds ++ (c ∷ [])) ∷ terms else (k, conds) ∷ more

unfoldable pub put_cond : Bool → ℕ → Cond → Stage → Stage
put_cond aborts term c st =
    if aborts
    then record st { aborts = add_cond term c st.aborts }
    else record st { terms = add_cond term c st.terms }

unfoldable pub conds_loop : Declared → Plan → ℕ → List Tlv → List Stage → Verdict (List Stage)
conds_loop d p n [] stages = accept stages
conds_loop d p n (c ∷ conds) stages = do
  (k, (aborts, (term, cond))) ← read_cond d p n c
  conds_loop d p n conds (set stages k (put_cond aborts term cond (get_or stages k empty_stage)))

-- One stage TLV: k count within_ns on_timeout.
unfoldable pub read_stage : ℕ → List ℕ → Tlv → Verdict (ℕ × Stage)
read_stage n seen (t, v) =
    let k = field v 0 1 in
    let count = field v 1 4 in
    let within = field v 5 8 in
    let on_timeout = field v 13 1 in
    do
      refuse_if (not (length v == 14)) malformed []
      refuse_if
          (leb n k
            || member k seen
            || count == 0
            || ltb 1 on_timeout
            || (on_timeout == 1 && within == 0))
          malformed []
      accept (k, record empty_stage { count = count; within_ns = within; on_timeout = on_timeout })

unfoldable pub stages_loop : ℕ → List ℕ → List Tlv → List Stage → Verdict (List Stage)
stages_loop n seen [] stages = accept stages
stages_loop n seen (s ∷ tlvs) stages = do
  (k, st) ← read_stage n seen s
  stages_loop n (k ∷ seen) tlvs (set stages k st)

abbrev pub instants : List Cond → List Cond
instants [] = []
instants (c ∷ conds) = let rest = instants conds in if instant c.kind then c ∷ rest else rest

-- The tag of a condition of a list: the last one's, the second one's.
abbrev pub last_tag : ℕ → List Cond → ℕ
last_tag t [] = t
last_tag t (c ∷ conds) = last_tag c.tag conds

abbrev pub second_tag : List Cond → ℕ
second_tag (a ∷ b ∷ conds) = b.tag
second_tag _ = 0

unfoldable pub check_terms : Terms → Verdict (Unit {0})
check_terms [] = accept tt
check_terms ((k, term) ∷ terms) = do
  refuse_if (ltb 4 (length term)) unsupported (last_tag 0 term ∷ [])
  refuse_if (ltb 1 (length (instants term))) unsupported (second_tag (instants term) ∷ [])
  check_terms terms

unfoldable pub check_stages : List Stage → Verdict (Unit {0})
check_stages [] = accept tt
check_stages (st ∷ stages) = do
  refuse_if (length st.terms == 0) malformed []
  _ ← check_terms st.terms
  _ ← check_terms st.aborts
  check_stages stages

-- The TLVs of one number, in order, the critical bit aside.
abbrev pub numbered : ℕ → List Tlv → List Tlv
numbered number [] = []
numbered number ((t, v) ∷ tlvs) =
    let rest = numbered number tlvs in if bit_and t 0x7f == number then (t, v) ∷ rest else rest

unfoldable pub out_loop :
    Declared → Plan → List Tlv → Option (ℕ × (ℕ × ℕ)) → Verdict (Option (ℕ × (ℕ × ℕ)))
out_loop d p [] out = accept out
out_loop d p ((t, v) ∷ tlvs) out =
    let role = field v 0 1 in
    let width = field v 1 4 in
    let polarity = field v 5 1 in
    do
      refuse_if (not (length v == 6)) malformed []
      refuse_if (ltb 1 polarity) malformed []
      refuse_if (not d.has_out || width == 0) unsupported (t ∷ [])
      refuse_if (not (role == 2) || not (member role p.group_roles)) unavailable (wrong_state none)
      out_loop d p tlvs (some (role, (width, polarity)))

abbrev pub is_out : Option (ℕ × (ℕ × ℕ)) → Bool
is_out none = false
is_out (some out) = true

-- The expression of the first trigger_source TLV: n holdoff(8) arm rearm.
unfoldable pub parse_source :
    Declared → Plan → List Tlv → Option (ℕ × (ℕ × ℕ)) → Tlv → Verdict Expression
parse_source d p repeated out (t, v) =
    let n = field v 0 1 in
    let arm = field v 9 1 in
    let rearm = field v 10 1 in
    do
      refuse_if (not (length v == 11)) malformed []
      refuse_if (n == 0 || ltb 1 arm || ltb 1 rearm) malformed []
      refuse_if (ltb 4 n) unsupported (t ∷ [])
      timed ← stages_loop n [] (numbered 2 repeated) (replicate n empty_stage)
      stages ← conds_loop d p n (numbered 3 repeated) timed
      _ ← check_stages stages
      accept (record {
        stages = stages;
        holdoff_ns = field v 1 8;
        arm = arm;
        rearm = rearm;
        out = out;
      })

-- From the list of trigger_source TLVs: the first is used, and stages or conditions of none are refused.
unfoldable pub parse_sources :
    Declared → Plan → List Tlv → Option (ℕ × (ℕ × ℕ)) → List Tlv → Verdict (Option Expression)
parse_sources d p repeated out [] =
    if not (length (numbered 2 repeated) == 0)
      || not (length (numbered 3 repeated) == 0)
      || is_out out
    then reject malformed []
    else accept none
parse_sources d p repeated out (source ∷ more) = do
  expr ← parse_source d p repeated out source
  accept (some expr)

unfoldable pub parse : Declared → Plan → List Tlv → Verdict (Option Expression)
parse d p repeated = do
  out ← out_loop d p (numbered 4 repeated) none
  parse_sources d p repeated out (numbered 1 repeated)
