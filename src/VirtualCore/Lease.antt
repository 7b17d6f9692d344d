-- ===== src/VirtualCore/Lease.antt =====
-- The lease of the session that holds the lock, and the end of a session.
use oep_client_python.Prelude.{
  ℕ, ◌+◌, ◌<◌, ◌≡◌, ◌≢◌, inl, inr, Bool, true, false, not, ◌||◌, Option, none, some, arith, ltb,
  ◌==◌, length,
}
use oep_client_python.Bytes.{Bytes, field}
use oep_client_python.VirtualCore.State.{
  Endpoint, Times, Core, accept, is_some, same_id, Verdict-cases,
}
use oep_client_python.VirtualCore.Record.{sid_of, op_of, payload_of, remember}
use oep_client_python.VirtualCore.Operations.{open_op, run_op}
use oep_client_python.VirtualCore.Handle.{
  check_session, run_request, renew, execute, handle, header_answer,
}
use oep_client_python.VirtualCore.Remember.{run_request-run_op}
use oep_client_python.VirtualCore.Replay.{begun}
use oep_client_python.VirtualCore.Invariant.{IsCore}
use oep_client_python.VirtualCore.Lock.{begun_running}

-- What `remember` leaves alone.
pub record SameLock (c d : Core) : Type 0 where
  pub holder : c.holder ≡ d.holder
  pub last : c.last ≡ d.last
  pub deadline : c.deadline ≡ d.deadline
  pub lease : c.lease ≡ d.lease

pub SameLock-remember :
    (ep : Endpoint) (request result : Bytes) (c : Core) → SameLock (remember ep request result c) c
unfolding remember
SameLock-remember ep request result c = ground arith

-- The session holds the lock, and its lease runs from a time.
record Leased (s now : ℕ) (c : Core) : Type 0 where
  holder : c.holder ≡ some s
  deadline : c.deadline ≡ now + c.lease

Leased-remember :
    (ep : Endpoint) (request result : Bytes) (c : Core) (s now : ℕ)
    → Leased s now c
    → Leased s now (remember ep request result c)
Leased-remember ep request result c s now h =
    ground (arith, h, SameLock-remember ep request result c)

Leased-renew :
    (t : Times) (s : ℕ) (c : Core) → c.holder ≡ some s → Leased s t.finished (renew t s true c)
unfolding renew same_id
Leased-renew t s c held = ground arith

holder-run_op :
    (ep : Endpoint) (t : Times) (transport op s : ℕ) (payload value : Bytes) (owner : Option Bytes)
    (c c' : Core) (opened : Bool)
    → c.holder ≡ some s
    → op ≢ 17
    → run_op ep t transport op s payload owner c ≡ accept (value, c', opened)
    → c'.holder ≡ some s
unfolding run_op open_op same_id
holder-run_op ep t transport op s payload value owner c c' opened held no_end e = ground arith

check_session_holder :
    (t : Times) (request : Bytes) (c : Core) (s : ℕ)
    → c.holder ≡ some s
    → s ≢ 0
    → sid_of request ≡ s
    → check_session t request c ≡ accept true
unfolding check_session same_id is_some
check_session_holder t request c s held nonzero own = ground arith

module _ (utf8 : Bytes → Bool) (ep : Endpoint) (t : Times) (transport : ℕ) (admission : Option ℕ)
    (request : Bytes) (s : ℕ) where
  execute_holder :
      (c : Core)
      → c.holder ≡ some s
      → s ≢ 0
      → sid_of request ≡ s
      → op_of request ≢ 17
      → Leased s t.finished (execute utf8 ep t transport admission request c).1
  unfolding execute
  execute_holder c held nonzero own no_end =
      let e = check_session_holder t request c s held nonzero own in
      elim (Verdict-cases (run_request utf8 ep t transport admission request c)) [
        | inr (reason, payload, e') ↦
            rw (e, e', execute)
              (Leased-remember ep request _ (renew t (sid_of request) true c) s t.finished
                (rw own (Leased-renew t s c held)))
        | inl ((value, c', opened), e') ↦
            let (owner, done) =
              run_request-run_op utf8 ep t transport admission request value c c' opened e' in
            let held' =
              holder-run_op ep t transport (op_of request) s (payload_of request) value owner c c'
                opened held no_end (rw own at done) in
            rw (e, e', execute)
              (Leased-remember ep request _ (renew t (sid_of request) true c') s t.finished
                (rw own (Leased-renew t s c' held')))
      ]

  -- A request of the session that holds the lock, its lease running, restarts the lease when its answer is generated, an
  -- answer that refuses it too: the session holds the lock until a whole lease after the answer. It is one that
  -- the header's checks and the record leave to be run, and not `end`.
  pub handle_holder :
      (c : Core)
      → IsCore ep c
      → c.holder ≡ some s
      → t.started < c.deadline
      → sid_of request ≡ s
      → op_of request ≢ 17
      → ltb (length request) 10 || not (field request 0 1 == 1) ≡ false
      → header_answer request (begun t c) ≡ none
      → ((handle utf8 ep t transport admission request c).1.holder ≡ some s)
        × ((handle utf8 ep t transport admission request c).1.deadline
            ≡ t.finished + (handle utf8 ep t transport admission request c).1.lease)
  unfolding handle
  handle_holder c h held running own no_end form ran =
      let held' : (begun t c).holder ≡ some s = rw (begun_running t c s held running) held in
      let nonzero : s ≢ 0 = ground (arith, h) in
      let leased = execute_holder (begun t c) held' nonzero own no_end in
      rw (form, ran, handle) (leased.holder, leased.deadline)
