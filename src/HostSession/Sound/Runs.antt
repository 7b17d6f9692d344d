-- ===== src/HostSession/Sound/Runs.antt =====
-- Every method of a host ends, and keeps the session's id and revision, whatever the probe answers.
use oep_client_python.Prelude.{ℕ, ◌≡◌, Bool, true, Option, none, List, [], ◌∷◌}
use oep_client_python.Bytes.{Bytes}
use oep_client_python.HostSession.Exec.{raised, not_usable, pure, ◌>>◌}
use oep_client_python.HostSession.Exec.Runs.{Ends}
use oep_client_python.HostSession.State.{Client}
use oep_client_python.HostSession.Outside.{Outside, Method}
use oep_client_python.HostSession.Asking.{keepalive, require_usable}
use oep_client_python.HostSession.Pipeline.{Calls, pipeline}
use oep_client_python.HostSession.Clock.{clock}
use oep_client_python.HostSession.Request.{request, ask}
use oep_client_python.HostSession.Run.{
  Operation, requests, calls, keeps_alive, confirms, asks_lock_state, asks_lock_owner, needs_limits,
  ends, restarts, asks_restart_max_ms, reads_clock, reads_clock_best, opens, ends_previous,
  subscribes, unsubscribes, describes, lists, finds, requires_op, pipelines, pipelines_calls, run,
  run_all,
}
use oep_client_python.HostSession.Sound.{
  IsClient, Since, Since-refl, Since-trans, Sound, Any, Any-Stays, Sound-pure, Sound-bind,
}
use oep_client_python.HostSession.Sound.Describes.{describe-Sound, call-Sound, subscribe-Sound}
use oep_client_python.HostSession.Sound.Quick.{unusable_start, is_unusable_now, stopped}
use oep_client_python.HostSession.Sound.Depth.{ask-Any, ask-Quicks}
use oep_client_python.HostSession.Sound.Open.{open_session-Sound}
use oep_client_python.HostSession.Sound.Lock.{
  confirm-Sound, lock_state-Sound, lock_owner-Sound, confirmed-Sound, end_previous-Sound,
  unsubscribe-Sound, end_session-Sound,
}
use oep_client_python.HostSession.Sound.Others.{
  pipeline-Sound, pipeline_calls-Sound, clock-Sound, clock_best-Sound,
}
use oep_client_python.HostSession.Sound.Find.{
  list_entries-Sound, find-Sound, require_op-Sound, restart_max_ms-Sound, request_restart-Sound,
}

module _ {L : Type 0} (o : Outside L) where
  dropped : {A : Type 0} (m : Method L A) → Sound Any m → Sound Any (m >> pure tt)
  dropped m h = Sound-bind Any-Stays m _ h λ a. Sound-pure tt

  run-Sound : (op : Operation) → Sound Any (run o op)
  unfolding run keepalive
  run-Sound (requests fn op payload locked) = dropped _ (ask-Any o fn op payload locked none)
  run-Sound (calls fn op payload) =
      dropped _ (call-Sound Any Any-Stays (ask o) fn op payload (ask-Any o fn op payload true none))
  run-Sound keeps_alive = dropped _ (ask-Any o _ _ [] true none)
  run-Sound confirms = dropped _ (confirm-Sound o)
  run-Sound asks_lock_state = dropped _ (lock_state-Sound o)
  run-Sound asks_lock_owner = dropped _ (lock_owner-Sound o)
  run-Sound needs_limits = dropped _ (confirmed-Sound o)
  run-Sound ends = end_session-Sound o
  run-Sound restarts = request_restart-Sound o
  run-Sound asks_restart_max_ms = dropped _ (restart_max_ms-Sound o)
  run-Sound reads_clock = dropped _ (clock-Sound o)
  run-Sound (reads_clock_best n) = dropped _ (clock_best-Sound o n)
  run-Sound (opens lease_ms force owner extensions) =
      dropped _ (open_session-Sound o lease_ms force owner extensions)
  run-Sound (ends_previous sid owner corr) = dropped _ (end_previous-Sound o sid owner corr)
  run-Sound (subscribes fn min_bytes max_delay_ms) =
      subscribe-Sound Any Any-Stays (ask o) fn min_bytes max_delay_ms (ask-Any o)
  run-Sound (unsubscribes fn) = unsubscribe-Sound o fn
  run-Sound (describes fn) = dropped _ (describe-Sound Any Any-Stays (ask o) fn (ask-Quicks o))
  run-Sound (lists name exact) = dropped _ (list_entries-Sound o name exact)
  run-Sound (finds name revision) = dropped _ (find-Sound o name revision)
  run-Sound (requires_op fn op) = require_op-Sound o fn op
  run-Sound (pipelines calls_ locked) = dropped _ (pipeline-Sound o calls_ locked)
  run-Sound (pipelines_calls calls_ locked) = dropped _ (pipeline_calls-Sound o calls_ locked)

  -- A method of a host that has a revision and an id of at least 1 for its session, if it has one, does not end
  -- for want of fuel, its own or that of a function it calls, whatever the link and the probe do: four rounds
  -- are deep enough for the requests that a request sends before it, the pages of a describe and of a list run
  -- out, and so do the TLVs of a payload.
  pub run-Ends : (op : Operation) (c : Client) (l : L) → IsClient c → Ends (run o op (c, l)).0
  run-Ends op c l i = ((run-Sound op).at c l i tt).1

  -- The epoch counts every loss. After any sequence of a host's methods, each of which may have raised, with
  -- whatever a link and a probe answer: a session still has an id of at least 1 and a revision; the epoch has not
  -- gone back; it has gone on when the session that was there is not the session, or the boot_id that was known
  -- is not the boot_id; and a probe that was not used is not used.
  pub run_all-Since :
      (ops : List Operation) (c : Client) (l : L)
      → IsClient c
      → IsClient (run_all o ops (c, l)).0 × Since c (run_all o ops (c, l)).0
  unfolding run_all
  run_all-Since [] c l i = (i, Since-refl c)
  run_all-Since (op ∷ ops) c l i =
      let (after, l') = (run o op (c, l)).1 in
      let (j, h) = ((run-Sound op).at c l i tt).0 in
      let (k, h') = run_all-Since ops after l' j in
      (k, Since-trans c after (run_all o ops (after, l')).0 h h')

  -- A host that once found its probe not usable stays so: after any sequence of its methods, a request, a
  -- pipeline and a reading of the clock each raise NotUsable at once, with nothing sent: neither the host nor
  -- the link has changed.
  pub run_all-not_usable :
      (ops : List Operation) (c : Client) (l : L) (fn op : ℕ) (payload : Bytes) (locked : Bool)
      (session : Option ℕ) (calls_ : Calls)
      → IsClient c
      → c.unusable ≡ true
      → (ask o fn op payload locked session (run_all o ops (c, l))
          ≡ (raised not_usable, run_all o ops (c, l)))
        × (pipeline o calls_ locked (run_all o ops (c, l))
            ≡ (raised not_usable, run_all o ops (c, l)))
        × (clock o (run_all o ops (c, l)) ≡ (raised not_usable, run_all o ops (c, l)))
  unfolding request pipeline clock
  run_all-not_usable ops c l fn op payload locked session calls_ i e =
      let (j, h) = run_all-Since ops c l i in
      let (after, l') = run_all o ops (c, l) in
      let now = is_unusable_now after l' (h.unusable e) in
      (
        unusable_start o (request o 3) fn op payload locked session after l' (h.unusable e),
        stopped require_usable _ (after, l') not_usable (after, l') now,
        stopped require_usable _ (after, l') not_usable (after, l') now,
      )
