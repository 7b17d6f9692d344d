-- ===== src/VirtualCore/Handle.antt =====
-- src/oep_client/virtual_core.py: `_handle`, one request from its bytes to the answer, with what it does to
-- the state. `ep.now()` is read when the handling starts and when the answer is generated.
use oep_client_python.Prelude.{
  ℕ, ◌+◌, Bool, true, false, not, ◌&&◌, ◌||◌, Option, none, some, [], ltb, leb, ◌==◌, length, drop,
  if◌then◌else◌,
}
use oep_client_python.Bytes.{Bytes, field}
use oep_client_python.Registry.{
  malformed, unknown_function, unknown_operation, session_required, no_session, result_lost,
}
use oep_client_python.Registry
use oep_client_python.VirtualCore.State.{
  Endpoint, Times, Core, Verdict, accept, reject, ◌>>=◌, is_some, same_id, tick, locked,
}
use oep_client_python.VirtualCore.Record.{
  corr_of, fn_of, op_of, sid_of, payload_of, refusal, success, replay, remember,
}
use oep_client_python.VirtualCore.Tail.{tail}
use oep_client_python.VirtualCore.Operations.{fixed_size, is_free, run_op}

abbrev pub is_opening : Bytes → Bool
is_opening request = fn_of request == 0 && op_of request == 16

-- The checks before the try block: an answer without any change, or none.
unfoldable pub header_answer : Bytes → Core → Option Bytes
header_answer request c =
    let corr = corr_of request in
    let sid = sid_of request in
    if corr == 0
    then some (refusal corr malformed [])
    else if not (fn_of request == 0)
    then some (refusal corr unknown_function [])
    else elim (fixed_size (op_of request)) [
      | none ↦ some (refusal corr unknown_operation [])
      | some size ↦
          if sid == 0 && not (is_free (op_of request)) && not (is_opening request)
          then some (refusal corr session_required [])
          else if not (sid == 0) && same_id sid c.last
          then replay request c
          else none
    ]

-- The session's checks, and whether the request belongs to the session that holds the lock.
unfoldable pub check_session : Times → Bytes → Core → Verdict Bool
check_session t request c =
    let sid = sid_of request in
    let payload = payload_of request in
    let force = leb 5 (length payload) && not (field payload 4 1 == 0) in
    if is_opening request
    then (if sid == 0
        then reject malformed []
        else if not (is_some c.holder) && same_id sid c.last
        then reject no_session []
        else if is_some c.holder && not (same_id sid c.holder) && not force
        then reject Registry.locked (locked t.started c)
        else accept (same_id sid c.holder))
    else if sid == 0
    then accept false
    else if not (is_some c.holder)
    then reject no_session []
    else if not (same_id sid c.holder)
    then reject Registry.locked (locked t.started c)
    else accept true

-- From the admission on: the rest of the try block.
unfoldable pub run_request :
    (Bytes → Bool) → Endpoint → Times → ℕ → Option ℕ → Bytes → Core → Verdict (Bytes × Core × Bool)
run_request utf8 ep t transport admission request c =
    let payload = payload_of request in
    elim admission [
      | some reason ↦ reject reason []
      | none ↦ elim (fixed_size (op_of request)) [
        | none ↦ reject 0 []
        | some size ↦ if ltb (length payload) size then reject malformed [] else do
          owner ← tail utf8 (drop size payload) (is_opening request)
          run_op ep t transport (op_of request) (sid_of request) payload owner c
      ]
    ]

-- The lease restarts where the request passed the session's check and its session still holds the lock.
unfoldable pub renew : Times → ℕ → Bool → Core → Core
renew t sid passed c =
    if passed && same_id sid c.holder
    then record c { renewal = some (sid, c.generation); deadline = t.finished + c.lease }
    else c

-- The try block and what follows it, for a request that the header's checks let through.
unfoldable pub execute :
    (Bytes → Bool) → Endpoint → Times → ℕ → Option ℕ → Bytes → Core → Bytes × Core
execute utf8 ep t transport admission request c =
    let corr = corr_of request in
    let sid = sid_of request in
    elim (check_session t request c) [
      | reject reason payload ↦
          let result = refusal corr reason payload in (result, remember ep request result c)
      | accept passed ↦ elim (run_request utf8 ep t transport admission request c) [
        | reject reason payload ↦
            let result = refusal corr reason payload in
            (result, remember ep request result (renew t sid passed c))
        | accept (value, c', opened) ↦
            let result = success corr value in
            (result, remember ep request result (renew t sid (passed || opened) c'))
      ]
    ]

-- handle(data, transport, admission_reason=…): no answer to what is no request.
unfoldable pub handle :
    (Bytes → Bool) → Endpoint → Times → ℕ → Option ℕ → Bytes → Core → Option Bytes × Core
handle utf8 ep t transport admission request c =
    let ticked = tick t.started (record c { renewal = none }) in
    if ltb (length request) 10 || not (field request 0 1 == 1)
    then (none, ticked)
    else elim (header_answer request ticked) [
      | some answer ↦ (some answer, ticked)
      | none ↦
          let (answer, c') = execute utf8 ep t transport admission request ticked in
          (some answer, c')
    ]
