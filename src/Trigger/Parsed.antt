-- ===== src/Trigger/Parsed.antt =====
-- What an expression that `parse` accepts is: one that an evaluator can run.
use oep_client_python.Prelude.{
  ℕ, zero, suc, ◌<◌, ◌≤◌, ◌≡◌, ◌≢◌, refl, ap, subst, ◌∙◌, Bool, true, false, not, ◌&&◌, ◌||◌,
  Option, none, some, List, [], ◌∷◌, arith, ltb, leb, ◌==◌, length, get_or, set, replicate,
  length-set, length-replicate, All,
}
use oep_client_python.Bytes.{Bytes, field}
use oep_client_python.Registry.{malformed, unsupported}
use oep_client_python.Message.Tlv.{Tlv}
use oep_client_python.VirtualCore.State.{Verdict, accept, reject, ◌>>=◌, ◌>>◌}
use oep_client_python.Trigger.Cond.{Cond, Terms, Stage, empty_stage, Expression, World}
use oep_client_python.Trigger.Parse.{
  numbered, read_cond, put_cond, conds_loop, read_stage, stages_loop, instants, check_terms,
  check_stages, out_loop, parse_source, parse_sources, parse,
}
use oep_client_python.Trigger.Args.{Declared, Plan, member, refuse_if}
use oep_client_python.Trigger.Invariant.{IsStage, IsEvaluator, All-set, All-get_or}
use oep_client_python.Try.{ok}
use oep_client_python.Trigger.Evaluator.{Evaluator, new_evaluator, run}
use oep_client_python.Trigger.Runs.{run-Ran}

-- A term of at most 4 conditions, at most one of them an instant.
pub record IsTerm (t : ℕ × List Cond) : Type 0 where
  pub few : length t.1 ≤ 4
  pub one_instant : length (instants t.1) ≤ 1

-- A stage that counts, with a time where its end decides.
pub record IsTimed (st : Stage) : Type 0 where
  pub counts : 0 < st.count
  pub timed : st.on_timeout ≢ 0 → 0 < st.within_ns

pub record IsFull (st : Stage) : Type 0 where
  pub some_term : 0 < length st.terms
  pub terms : All IsTerm st.terms
  pub aborts : All IsTerm st.aborts

pub >>=-eq_accept {ℓ κ} :
    {A : Type ℓ} {B : Type κ} (m : Verdict A) (f : A → Verdict B) {b : B}
    → (m >>= f) ≡ accept b
    → (a : A) × (m ≡ accept a) × (f a ≡ accept b)
>>=-eq_accept (accept a) f h = (a, refl, h)
>>=-eq_accept (reject reason payload) f h = cc

-- A test that refuses, passed.
refuse_if-passed :
    {B : Type 0} (test : Bool) (reason : ℕ) (payload : List ℕ) (k : Verdict B) {b : B}
    → (refuse_if test reason payload >> k) ≡ accept b
    → (test ≡ false) × (k ≡ accept b)
refuse_if-passed true reason payload k h = cc (h)
refuse_if-passed false reason payload k h = (refl, h)

check_terms-IsTerm : (terms : Terms) → check_terms terms ≡ accept tt → All IsTerm terms
unfolding check_terms
check_terms-IsTerm [] h = tt
check_terms-IsTerm ((k, term) ∷ terms) h =
    let (few, h1) = refuse_if-passed (ltb 4 (length term)) unsupported _ _ h in
    let (one, h2) = refuse_if-passed (ltb 1 (length (instants term))) unsupported _ _ h1 in
    (
      record { few = ground (arith, few); one_instant = ground (arith, one) },
      check_terms-IsTerm terms h2,
    )

check_stages-IsFull : (stages : List Stage) → check_stages stages ≡ accept tt → All IsFull stages
unfolding check_stages
check_stages-IsFull [] h = tt
check_stages-IsFull (st ∷ stages) h =
    let (some_term, h1) = refuse_if-passed (length st.terms == 0) malformed _ _ h in
    let (_, terms, h2) = >>=-eq_accept (check_terms st.terms) _ h1 in
    let (_, aborts, h3) = >>=-eq_accept (check_terms st.aborts) _ h2 in
    (
      record {
        some_term = ground (arith, some_term);
        terms = check_terms-IsTerm st.terms terms;
        aborts = check_terms-IsTerm st.aborts aborts;
      },
      check_stages-IsFull stages h3,
    )

put_cond-IsTimed :
    (aborts : Bool) (term : ℕ) (c : Cond) (st : Stage)
    → IsTimed st
    → IsTimed (put_cond aborts term c st)
unfolding put_cond
put_cond-IsTimed true term c st h = record { counts = h.counts; timed = h.timed }
put_cond-IsTimed false term c st h = record { counts = h.counts; timed = h.timed }

empty_stage-IsTimed : IsTimed empty_stage
empty_stage-IsTimed = record { counts = omega arith; timed = λ h. absurd (h refl) }

-- The stages, as many as before.
AreTimed : ℕ → List Stage → Type 0
AreTimed n stages = (length stages ≡ n) × All IsTimed stages

conds_loop-IsTimed :
    (d : Declared) (p : Plan) (n : ℕ) (conds : List Tlv) (before after : List Stage)
    → conds_loop d p n conds before ≡ accept after
    → AreTimed n before
    → AreTimed n after
unfolding conds_loop AreTimed
conds_loop-IsTimed d p n [] before after h timed =
    let same : before ≡ after = cc (h) in subst (λ s. AreTimed n s) same timed
conds_loop-IsTimed d p n (c ∷ conds) before after h (len, timed) =
    let ((k, (aborts, (term, cond))), read, h1) = >>=-eq_accept (read_cond d p n c) _ h in
    let st = put_cond aborts term cond (get_or before k empty_stage) in
    let good =
      put_cond-IsTimed aborts term cond (get_or before k empty_stage)
        (All-get_or IsTimed before k empty_stage timed empty_stage-IsTimed) in
    conds_loop-IsTimed d p n conds (set before k st) after h1
      (length-set before k st ∙ len, All-set IsTimed before k st timed good)

IsTimed-of :
    (b : Bool) (count within on_timeout : ℕ)
    → b || count == 0 || ltb 1 on_timeout || (on_timeout == 1 && within == 0) ≡ false
    → IsTimed (record empty_stage { count = count; within_ns = within; on_timeout = on_timeout })
IsTimed-of true count within on_timeout h = cc (h)
IsTimed-of false count within on_timeout h = record {
  counts = ground (arith, h);
  timed = λ e. ground (arith, h, e);
}

read_stage-IsTimed :
    (n : ℕ) (seen : List ℕ) (t : Tlv) (k : ℕ) (st : Stage)
    → read_stage n seen t ≡ accept (k, st)
    → IsTimed st
unfolding read_stage
read_stage-IsTimed n seen (t, v) k st h =
    let n_k = field v 0 1 in
    let count = field v 1 4 in
    let within = field v 5 8 in
    let on_timeout = field v 13 1 in
    let excluded =
      leb n n_k
      || member n_k seen
      || count == 0
      || ltb 1 on_timeout
      || (on_timeout == 1 && within == 0) in
    let (_, h1) = refuse_if-passed (not (length v == 14)) malformed [] _ h in
    let (right, h2) = refuse_if-passed excluded malformed [] _ h1 in
    let same : record empty_stage { count = count; within_ns = within; on_timeout = on_timeout }
        ≡ st =
      cc (h2) in
    subst IsTimed same (IsTimed-of (leb n n_k || member n_k seen) count within on_timeout right)

stages_loop-IsTimed :
    (n : ℕ) (seen : List ℕ) (tlvs : List Tlv) (before after : List Stage)
    → stages_loop n seen tlvs before ≡ accept after
    → AreTimed n before
    → AreTimed n after
unfolding stages_loop AreTimed
stages_loop-IsTimed n seen [] before after h timed =
    let same : before ≡ after = cc (h) in subst (λ s. AreTimed n s) same timed
stages_loop-IsTimed n seen (s ∷ tlvs) before after h (len, timed) =
    let ((k, st), read, h1) = >>=-eq_accept (read_stage n seen s) _ h in
    stages_loop-IsTimed n (k ∷ seen) tlvs (set before k st) after h1 (
      length-set before k st ∙ len,
      All-set IsTimed before k st timed (read_stage-IsTimed n seen s k st read),
    )

replicate-IsTimed : (n : ℕ) → All IsTimed (replicate n empty_stage)
replicate-IsTimed zero = tt
replicate-IsTimed (suc n) = (empty_stage-IsTimed, replicate-IsTimed n)

-- An expression that an evaluator can run.
pub record IsExpression (expr : Expression) : Type 0 where
  pub some_stage : 0 < length expr.stages
  pub few_stages : length expr.stages ≤ 4
  pub timed : All IsTimed expr.stages
  pub full : All IsFull expr.stages

above_zero : (n : ℕ) (a b : Bool) → n == 0 || a || b ≡ false → 0 < n
above_zero n a b h = ground (arith, h)

at_most : (m n : ℕ) → ltb m n ≡ false → n ≤ m
at_most m n h = ground (arith, h)

parse_source-IsExpression :
    (d : Declared) (p : Plan) (repeated : List Tlv) (out : Option (ℕ × (ℕ × ℕ))) (t : ℕ) (v : Bytes)
    (expr : Expression)
    → parse_source d p repeated out (t, v) ≡ accept expr
    → IsExpression expr
unfolding parse_source AreTimed
parse_source-IsExpression d p repeated out t v expr h =
    let n = field v 0 1 in
    let (_, h1) = refuse_if-passed (not (length v == 11)) malformed [] _ h in
    let (form, h2) =
      refuse_if-passed (n == 0 || ltb 1 (field v 9 1) || ltb 1 (field v 10 1)) malformed [] _ h1 in
    let (few, h3) = refuse_if-passed (ltb 4 n) unsupported (t ∷ []) _ h2 in
    let (timed, e4, h4) =
      >>=-eq_accept (stages_loop n [] (numbered 2 repeated) (replicate n empty_stage)) _ h3 in
    let (stages, e5, h5) = >>=-eq_accept (conds_loop d p n (numbered 3 repeated) timed) _ h4 in
    let (_, e6, h6) = >>=-eq_accept (check_stages stages) _ h5 in
    let start : AreTimed n (replicate n empty_stage) =
      (length-replicate n empty_stage, replicate-IsTimed n) in
    let (len, good) =
      conds_loop-IsTimed d p n (numbered 3 repeated) timed stages e5
        (stages_loop-IsTimed n [] (numbered 2 repeated) (replicate n empty_stage) timed e4 start) in
    let same : stages ≡ expr.stages = cc (h6) in
    record {
      some_stage = omega (
        arith,
        len,
        ap length same,
        above_zero n (ltb 1 (field v 9 1)) (ltb 1 (field v 10 1)) form,
      );
      few_stages = omega (arith, len, ap length same, at_most 4 n few);
      timed = subst (All IsTimed) same good;
      full = subst (All IsFull) same (check_stages-IsFull stages e6);
    }

parse_sources-IsExpression :
    (d : Declared) (p : Plan) (repeated : List Tlv) (out : Option (ℕ × (ℕ × ℕ)))
    (sources : List Tlv) (expr : Expression)
    → parse_sources d p repeated out sources ≡ accept (some expr)
    → IsExpression expr
unfolding parse_sources
parse_sources-IsExpression d p repeated out [] expr h = absurd (ground (arith, h))
parse_sources-IsExpression d p repeated out ((t, v) ∷ more) expr h =
    let (found, e, h1) = >>=-eq_accept (parse_source d p repeated out (t, v)) _ h in
    let same : found ≡ expr = cc (h1) in
    subst IsExpression same (parse_source-IsExpression d p repeated out t v found e)

-- What `parse` accepts has 1 to 4 stages. Each counts a rising at least, has a time where its end decides, and
-- has a term; a term has at most 4 conditions, at most one of them an instant.
pub parse-IsExpression :
    (d : Declared) (p : Plan) (repeated : List Tlv) (expr : Expression)
    → parse d p repeated ≡ accept (some expr)
    → IsExpression expr
unfolding parse
parse-IsExpression d p repeated expr h =
    let (out, _, h1) = >>=-eq_accept (out_loop d p (numbered 4 repeated) none) _ h in
    parse_sources-IsExpression d p repeated out (numbered 1 repeated) expr h1

IsStage-of : (stages : List Stage) → All IsTimed stages → All IsStage stages
IsStage-of [] h = tt
IsStage-of (st ∷ stages) (h, hs) = (record { counts = h.counts }, IsStage-of stages hs)

-- Whatever a host binds: an expression that `parse` accepts is judged up to any time, in a run that ends.
pub parse-run :
    (d : Declared) (p : Plan) (repeated : List Tlv) (expr : Expression) (w : World) (begin now : ℕ)
    → parse d p repeated ≡ accept (some expr)
    → (after : Evaluator) × (run w now (new_evaluator expr begin) ≡ ok after) × IsEvaluator after
parse-run d p repeated expr w begin now h =
    let good = parse-IsExpression d p repeated expr h in
    let (after, r, sound, _, _) =
      run-Ran w expr begin now good.some_stage (IsStage-of expr.stages good.timed) in
    (after, r, sound)
