-- ===== src/VirtualCore/Ended.antt =====
-- No resume: a session whose lock has ended holds it never again.
use oep_client_python.Prelude.{
  ℕ, ◌≡◌, ◌≢◌, ◌⊎◌, inl, inr, Bool, true, false, not, ◌||◌, Option, none, some, arith, ltb, ◌==◌,
  length, Option-cases, Bool-cases,
}
use oep_client_python.Bytes.{Bytes, field}
use oep_client_python.VirtualCore.State.{
  Endpoint, Times, Core, accept, is_some, same_id, release, tick, Verdict-cases,
}
use oep_client_python.VirtualCore.Record.{sid_of, op_of, payload_of}
use oep_client_python.VirtualCore.Operations.{is_free, open_op, take_lock, run_op}
use oep_client_python.VirtualCore.Handle.{
  is_opening, check_session, run_request, renew, execute, handle, header_answer,
}
use oep_client_python.VirtualCore.Remember.{run_request-run_op}
use oep_client_python.VirtualCore.Replay.{begun}
use oep_client_python.VirtualCore.Lock.{header_free, run_op_free}
use oep_client_python.VirtualCore.Lease.{SameLock, SameLock-remember}

-- The session has ended and none was opened since, or the last one opened is another.
abbrev pub Over : ℕ → Core → Type 0
Over s c =
    ((c.holder ≡ none) × (c.last ≡ some s))
    ⊎ ((s' : ℕ) × (c.holder ≡ some s') × (c.last ≡ some s') × (s' ≢ s))

Over-same : (s : ℕ) (c d : Core) → SameLock c d → Over s d → Over s c
Over-same s c d h over = ground (arith, h, over)

Over-renew :
    (s : ℕ) (t : Times) (sid : ℕ) (passed : Bool) (c : Core)
    → Over s c
    → Over s (renew t sid passed c)
unfolding renew
Over-renew s t sid passed c over = ground (arith, over)

-- Whom the session's checks let through while the lock is free.
check_session_free :
    (t : Times) (request : Bytes) (c : Core) (s : ℕ) (passed : Bool)
    → c.holder ≡ none
    → c.last ≡ some s
    → check_session t request c ≡ accept passed
    → ((is_opening request ≡ true) × (sid_of request ≢ s))
      ⊎ ((is_opening request ≡ false) × ((sid_of request == 0) ≡ true))
unfolding check_session same_id is_some
check_session_free t request c s passed free last e = ground arith

run_op_opening :
    (ep : Endpoint) (t : Times) (transport op sid : ℕ) (payload value : Bytes)
    (owner : Option Bytes) (c c' : Core) (opened : Bool)
    → c.holder ≡ none
    → op ≡ 16
    → run_op ep t transport op sid payload owner c ≡ accept (value, c', opened)
    → (c'.holder ≡ some sid) × (c'.last ≡ some sid)
unfolding run_op open_op take_lock release same_id
run_op_opening ep t transport op sid payload value owner c c' opened free opening e = ground arith

module _ (utf8 : Bytes → Bool) (ep : Endpoint) (t : Times) (transport : ℕ) (admission : Option ℕ)
    (request : Bytes) (s : ℕ) where
  Over-run_op :
      (value : Bytes) (owner : Option Bytes) (c c' : Core) (passed opened : Bool)
      → header_answer request c ≡ none
      → c.holder ≡ none
      → c.last ≡ some s
      → check_session t request c ≡ accept passed
      → run_op ep t transport (op_of request) (sid_of request) (payload_of request) owner c
        ≡ accept (value, c', opened)
      → Over s c'
  Over-run_op value owner c c' passed opened ran free last e done =
      elim (check_session_free t request c s passed free last e) [
        | inl (opening, other) ↦
            let is_open : op_of request ≡ 16 = ground (arith, opening) in
            let (holder, newest) =
              run_op_opening ep t transport (op_of request) (sid_of request) (payload_of request)
                value owner c c' opened free is_open done in
            inr (sid_of request, holder, newest, other)
        | inr (closed, zero_id) ↦
            let lock_free : is_free (op_of request) ≡ true =
              ground (arith, header_free request c ran zero_id) in
            let (same, _) =
              run_op_free ep t transport (op_of request) (sid_of request) (payload_of request) value
                owner c c' opened lock_free done in
            rw same (inl (free, last))
      ]

  execute-Over :
      (c : Core)
      → header_answer request c ≡ none
      → c.holder ≡ none
      → c.last ≡ some s
      → Over s (execute utf8 ep t transport admission request c).1
  unfolding execute
  execute-Over c ran free last = elim (Verdict-cases (check_session t request c)) [
    | inr (reason, payload, e) ↦
        rw (e, execute) (Over-same s _ c (SameLock-remember ep request _ c) (inl (free, last)))
    | inl (passed, e) ↦ elim (Verdict-cases (run_request utf8 ep t transport admission request c)) [
      | inr (reason, payload, e') ↦
          rw (e, e', execute)
            (Over-same s _ (renew t (sid_of request) passed c)
              (SameLock-remember ep request _ (renew t (sid_of request) passed c))
              (Over-renew s t (sid_of request) passed c (inl (free, last))))
      | inl ((value, c', opened), e') ↦
          let (owner, done) =
            run_request-run_op utf8 ep t transport admission request value c c' opened e' in
          rw (e, e', execute)
            (Over-same s _ (renew t (sid_of request) (passed || opened) c')
              (SameLock-remember ep request _ (renew t (sid_of request) (passed || opened) c'))
              (Over-renew s t (sid_of request) (passed || opened) c'
                (Over-run_op value owner c c' passed opened ran free last e done)))
    ]
  ]

  -- Once the session last opened has ended and the lock is free, no request brings it back: whatever comes, either the lock stays free and the session stays the last one opened, or a
  -- session of another id holds the lock.
  pub handle-Over :
      (c : Core)
      → c.holder ≡ none
      → c.last ≡ some s
      → Over s (handle utf8 ep t transport admission request c).1
  unfolding handle
  handle-Over c free last =
      let free' : (begun t c).holder ≡ none = begun_free in
      let last' : (begun t c).last ≡ some s = begun_last in
      elim (Bool-cases (ltb (length request) 10 || not (field request 0 1 == 1))) [
        | inl no_request ↦ rw (no_request, handle) (inl (free', last'))
        | inr form ↦ elim (Option-cases (header_answer request (begun t c))) [
          | inr (a, early) ↦ rw (form, early, handle) (inl (free', last'))
          | inl ran ↦ rw (form, ran, handle) (execute-Over (begun t c) ran free' last')
        ]
      ]
    where
      begun_free : (begun t c).holder ≡ none
      begun_free = unfold tick is_some in ground arith

      begun_last : (begun t c).last ≡ some s
      begun_last = unfold tick is_some in ground arith
