-- ===== src/VirtualCore/Lock.antt =====
-- The lock of the probe's core: who may change it, and that an ended session does not come back.
use oep_client_python.Prelude.{
  ℕ, ◌<◌, ◌≡◌, ◌≢◌, refl, ◌⊎◌, inl, inr, Bool, true, false, not, ◌&&◌, ◌||◌, Option, none, some,
  arith, ltb, leb, ◌==◌, length, Option-cases, Bool-cases,
}
use oep_client_python.Bytes.{Bytes, field}
use oep_client_python.VirtualCore.State.{
  Endpoint, Times, Core, accept, is_some, same_id, tick, Verdict-cases,
}
use oep_client_python.VirtualCore.Record.{sid_of, op_of, payload_of, remember}
use oep_client_python.VirtualCore.Operations.{is_free, run_op}
use oep_client_python.VirtualCore.Handle.{
  is_opening, check_session, run_request, renew, execute, handle, header_answer,
}
use oep_client_python.VirtualCore.Remember.{run_request-run_op}
use oep_client_python.VirtualCore.Replay.{begun}
use oep_client_python.VirtualCore.Invariant.{IsCore}

-- An open that carries force.
abbrev pub is_forced : Bytes → Bool
is_forced request =
    is_opening request
    && (leb 5 (length (payload_of request)) && not (field (payload_of request) 4 1 == 0))

pub run_op_free :
    (ep : Endpoint) (t : Times) (transport op sid : ℕ) (payload value : Bytes)
    (owner : Option Bytes) (c c' : Core) (opened : Bool)
    → is_free op ≡ true
    → run_op ep t transport op sid payload owner c ≡ accept (value, c', opened)
    → (c' ≡ c) × (opened ≡ false)
unfolding run_op is_free
run_op_free ep t transport op sid payload value owner c c' opened free e = ground arith

pub header_free :
    (request : Bytes) (c : Core)
    → header_answer request c ≡ none
    → (sid_of request == 0) ≡ true
    → (is_free (op_of request) ≡ true) ⊎ (is_opening request ≡ true)
unfolding header_answer
header_free request c e zero_id = ground arith

-- Whom the session's checks let through while a session holds the lock.
check_session_other :
    (t : Times) (request : Bytes) (c : Core) (s : ℕ) (passed : Bool)
    → c.holder ≡ some s
    → sid_of request ≢ s
    → is_forced request ≡ false
    → check_session t request c ≡ accept passed
    → (passed ≡ false) × (is_opening request ≡ false) × ((sid_of request == 0) ≡ true)
unfolding check_session same_id is_some
check_session_other t request c s passed held other gentle e = ground arith

remember_other :
    (ep : Endpoint) (request result : Bytes) (c : Core) (s : ℕ)
    → c.last ≡ some s
    → sid_of request ≢ s
    → remember ep request result c ≡ c
unfolding remember same_id
remember_other ep request result c s last other = ground arith

pub renew_outside : (t : Times) (sid : ℕ) (c : Core) → renew t sid false c ≡ c
unfolding renew
renew_outside t sid c = refl

-- While the lease runs the clock releases nothing.
pub begun_running :
    (t : Times) (c : Core) (s : ℕ)
    → c.holder ≡ some s
    → t.started < c.deadline
    → begun t c ≡ record c { renewal = none }
unfolding tick is_some
begun_running t c s held running = ground arith

module _ (utf8 : Bytes → Bool) (ep : Endpoint) (t : Times) (transport : ℕ) (admission : Option ℕ)
    (request : Bytes) where
  execute_other :
      (c : Core) (s : ℕ)
      → header_answer request c ≡ none
      → c.holder ≡ some s
      → c.last ≡ some s
      → sid_of request ≢ s
      → is_forced request ≡ false
      → (execute utf8 ep t transport admission request c).1 ≡ c
  unfolding execute
  execute_other c s ran held last other gentle = elim (Verdict-cases (check_session t request c)) [
    | inr (reason, payload, e) ↦ rw (e, execute) (remember_other ep request _ c s last other)
    | inl (passed, e) ↦
        let (outside, closed, zero_id) =
          check_session_other t request c s passed held other gentle e in
        elim (Verdict-cases (run_request utf8 ep t transport admission request c)) [
          | inr (reason, payload, e') ↦
              rw (e, e', execute)
                (rw (outside, renew_outside) (remember_other ep request _ c s last other))
          | inl ((value, c', opened), e') ↦
              let (owner, done) =
                run_request-run_op utf8 ep t transport admission request value c c' opened e' in
              let free : is_free (op_of request) ≡ true =
                ground (arith, header_free request c ran zero_id) in
              let (same, shut) =
                run_op_free ep t transport (op_of request) (sid_of request) (payload_of request)
                  value owner c c' opened free done in
              rw (e, e', execute, outside, shut, same, renew_outside)
                (remember_other ep request _ c s last other)
        ]
  ]

  -- While a session holds the lock and its lease runs, a request of another session or of none changes nothing of the
  -- core's state, unless it is an open with force: not the lock, its owner, its lease or its record.
  pub handle_other :
      (c : Core) (s : ℕ)
      → IsCore ep c
      → c.holder ≡ some s
      → t.started < c.deadline
      → sid_of request ≢ s
      → is_forced request ≡ false
      → (handle utf8 ep t transport admission request c).1 ≡ record c { renewal = none }
  unfolding handle
  handle_other c s h held running other gentle =
      let same = begun_running t c s held running in
      let last : c.last ≡ some s = ground (arith, h) in
      elim (Bool-cases (ltb (length request) 10 || not (field request 0 1 == 1))) [
        | inl no_request ↦ rw (no_request, handle) same
        | inr form ↦ elim (Option-cases (header_answer request (begun t c))) [
          | inr (a, early) ↦ rw (form, early, handle) same
          | inl ran ↦
              rw (form, ran, handle)
                (rw same (
                  execute_other (record c { renewal = none }) s (rw same at ran) held last other
                    gentle))
        ]
      ]
