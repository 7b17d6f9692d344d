-- ===== src/VirtualCore/Examples.antt =====
-- A probe's core at work on concrete requests, and its theorems at concrete inputs.
use oep_client_python.Prelude.{ℕ, ◌+◌, ◌≡◌, refl, Bool, true, Option, none, some, [], ◌∷◌, arith}
use oep_client_python.Bytes.{Bytes}
use oep_client_python.VirtualCore.State.{
  Endpoint, Times, Core, initial, is_some, same_id, release, tick,
}
use oep_client_python.VirtualCore.Tail.{tail}
use oep_client_python.VirtualCore.Record.{
  refusal, success, corr_distance, lookup, replay, put, drop_old, drop_first, remember,
}
use oep_client_python.VirtualCore.Operations.{
  fixed_size, is_free, open_op, take_lock, lease_of, run_op,
}
use oep_client_python.VirtualCore.Handle.{
  header_answer, check_session, run_request, renew, execute, handle,
}
use oep_client_python.VirtualCore.Invariant.{IsCore, IsCore-initial, handle-IsCore}
use oep_client_python.VirtualCore.Replay.{begun}
use oep_client_python.VirtualCore.Resend.{Later, at_once, ticks, of_others, handle_resend}
use oep_client_python.VirtualCore.Lock.{handle_other}
use oep_client_python.VirtualCore.Lease.{handle_holder}
use oep_client_python.VirtualCore.Ended.{Over, handle-Over}

abbrev probe : Endpoint
probe = record {
  max_frame = 64;
  window = 64;
  max_inflight = 2;
  boot_id = 0x0102;
  lease_default_ms = 3000;
  remember_max = 64;
  static_rows = (0x40 ∷ 0 ∷ 0 ∷ []) ∷ [];
}

abbrev times : ℕ → Times
times now = record { started = now; finished = now + 1; now_ns = now }

abbrev any_text : Bytes → Bool
any_text text = true

-- A request of fn 0: its corr, op, session (below 256 each) and payload.
abbrev core_request : ℕ → ℕ → ℕ → Bytes → Bytes
core_request corr op sid payload = 1 ∷ corr ∷ 0 ∷ 0 ∷ 0 ∷ op ∷ sid ∷ 0 ∷ 0 ∷ 0 ∷ payload

abbrev answer : ℕ → Bytes → Core → Option Bytes × Core
answer now request c = handle any_text probe (times now) 0 none request c

-- A run computes with all of these.
all_of_it : ℕ
unfolding handle tick header_answer fixed_size is_free same_id is_some execute check_session
    run_request tail run_op open_op take_lock lease_of release refusal success remember put drop_old
    drop_first corr_distance renew replay lookup
all_of_it = 0

abbrev opened : Core
opened = (answer 100 (core_request 1 16 5 (0 ∷ 0 ∷ 0 ∷ 0 ∷ 0 ∷ [])) initial).1

opened_holds : (opened.holder ≡ some 5) × (opened.deadline ≡ 3101) × (opened.high ≡ 1)
unfolding all_of_it
opened_holds = (refl, refl, refl)

opened-IsCore : IsCore probe opened
opened-IsCore =
    handle-IsCore any_text probe (times 100) 0 none (core_request 1 16 5 (0 ∷ 0 ∷ 0 ∷ 0 ∷ 0 ∷ []))
      initial (IsCore-initial probe)

handle-IsCore_example : IsCore probe (answer 200 (core_request 2 18 5 []) opened).1
handle-IsCore_example =
    handle-IsCore any_text probe (times 200) 0 none (core_request 2 18 5 []) opened opened-IsCore

abbrev kept : Core
kept = (answer 200 (core_request 2 18 5 []) opened).1

keepalive_answered :
    answer 200 (core_request 2 18 5 []) opened ≡ (some (2 ∷ 2 ∷ 0 ∷ 1 ∷ 0 ∷ []), kept)
unfolding all_of_it
keepalive_answered = refl

kept_last : same_id 5 kept.last ≡ true
unfolding all_of_it
kept_last = refl

kept-IsCore : IsCore probe kept
kept-IsCore =
    handle-IsCore any_text probe (times 200) 0 none (core_request 2 18 5 []) opened opened-IsCore

kept_holds : (kept.holder ≡ some 5) × (kept.deadline ≡ 3201)
unfolding all_of_it
kept_holds = (refl, refl)

-- The open of another session.
abbrev turned_away : Bytes
turned_away = core_request 1 16 9 (0 ∷ 0 ∷ 0 ∷ 0 ∷ 0 ∷ [])

abbrev run_out : Core
run_out = tick 8000 (answer 300 turned_away kept).1

kept-Later : Later any_text probe kept run_out
kept-Later =
    of_others (times 300) 0 none turned_away 5 kept-IsCore kept_holds.0
      (omega (arith, kept_holds.1)) (omega arith) refl (ticks 8000 at_once)

-- The same keepalive again, after another session was turned away and the lease has run out.
handle_resend_example :
    answer 9000 (core_request 2 18 5 []) run_out
    ≡ (some (2 ∷ 2 ∷ 0 ∷ 1 ∷ 0 ∷ []), begun (times 9000) run_out)
handle_resend_example =
    handle_resend any_text probe (times 200) (times 9000) 0 0 none none (core_request 2 18 5 [])
      (2 ∷ 2 ∷ 0 ∷ 1 ∷ 0 ∷ []) opened kept run_out keepalive_answered refl kept_last (omega arith)
      (omega arith) kept-Later

-- Another session's open without force.
handle_other_example :
    (answer 300 (core_request 1 16 9 (0 ∷ 0 ∷ 0 ∷ 0 ∷ 0 ∷ [])) opened).1
    ≡ record opened { renewal = none }
handle_other_example =
    handle_other any_text probe (times 300) 0 none (core_request 1 16 9 (0 ∷ 0 ∷ 0 ∷ 0 ∷ 0 ∷ []))
      opened 5 opened-IsCore opened_holds.0 (omega (arith, opened_holds.1)) (omega arith) refl

keepalive_runs : header_answer (core_request 2 18 5 []) (begun (times 200) opened) ≡ none
unfolding all_of_it
keepalive_runs = refl

handle_holder_example : (kept.holder ≡ some 5) × (kept.deadline ≡ 201 + kept.lease)
handle_holder_example =
    handle_holder any_text probe (times 200) 0 none (core_request 2 18 5 []) 5 opened opened-IsCore
      opened_holds.0 (omega (arith, opened_holds.1)) refl (omega arith) refl keepalive_runs

abbrev ended : Core
ended = (answer 400 (core_request 3 17 5 []) kept).1

ended_free : (ended.holder ≡ none) × (ended.last ≡ some 5)
unfolding all_of_it
ended_free = (refl, refl)

-- The ended session's own open.
handle-Over_example : Over 5 (answer 500 (core_request 4 16 5 (0 ∷ 0 ∷ 0 ∷ 0 ∷ 0 ∷ [])) ended).1
handle-Over_example =
    handle-Over any_text probe (times 500) 0 none (core_request 4 16 5 (0 ∷ 0 ∷ 0 ∷ 0 ∷ 0 ∷ [])) 5
      ended ended_free.0 ended_free.1

reopen_refused :
    (answer 500 (core_request 4 16 5 (0 ∷ 0 ∷ 0 ∷ 0 ∷ 0 ∷ [])) ended).0
    ≡ some (2 ∷ 4 ∷ 0 ∷ 0 ∷ 7 ∷ [])
unfolding all_of_it
reopen_refused = refl
