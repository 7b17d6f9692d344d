-- ===== src/HostSession/Run.antt =====
-- src/oep_client/host.py: any method of a host, and any sequence of them. A caller goes on after what a
-- method raised.
use oep_client_python.Prelude.{ℕ, Bool, Option, List, [], ◌∷◌}
use oep_client_python.Bytes.{Bytes}
use oep_client_python.HostSession.Exec.{pure, ◌>>◌}
use oep_client_python.HostSession.State.{Client}
use oep_client_python.HostSession.Outside.{Outside, Method}
use oep_client_python.HostSession.Asking.{call, keepalive, subscribe, describe, confirm}
use oep_client_python.HostSession.Request.{ask}
use oep_client_python.HostSession.Lock.{
  lock_state, lock_owner, confirmed, end_previous, open_session, end_session, unsubscribe,
}
use oep_client_python.HostSession.Pipeline.{Calls, pipeline, pipeline_calls}
use oep_client_python.HostSession.Clock.{clock, clock_best}
use oep_client_python.HostSession.Find.{
  list_entries, find, require_op, restart_max_ms, request_restart,
}

pub data Operation : Type 0 where
  requests : ℕ → ℕ → Bytes → Bool → Operation
  calls : ℕ → ℕ → Bytes → Operation
  keeps_alive confirms asks_lock_state asks_lock_owner needs_limits ends restarts
        asks_restart_max_ms reads_clock :
      Operation
  reads_clock_best : ℕ → Operation
  opens : ℕ → Bool → List ℕ → List (List ℕ × Bytes) → Operation
  ends_previous : ℕ → List ℕ → Option ℕ → Operation
  subscribes : ℕ → ℕ → ℕ → Operation
  unsubscribes describes : ℕ → Operation
  lists : List ℕ → Bool → Operation
  finds : List ℕ → Option ℕ → Operation
  requires_op : ℕ → ℕ → Operation
  pipelines pipelines_calls : Calls → Bool → Operation

module _ {L : Type 0} (o : Outside L) where
  unfoldable pub run : Operation → Method L (Unit {0})
  run (requests fn op payload locked) = ask o fn op payload locked Option.none >> pure tt
  run (calls fn op payload) = call (ask o) fn op payload >> pure tt
  run keeps_alive = keepalive (ask o)
  run confirms = confirm (ask o) >> pure tt
  run asks_lock_state = lock_state o >> pure tt
  run asks_lock_owner = lock_owner o >> pure tt
  run needs_limits = confirmed o >> pure tt
  run ends = end_session o
  run restarts = request_restart o
  run asks_restart_max_ms = restart_max_ms o >> pure tt
  run reads_clock = clock o >> pure tt
  run (reads_clock_best n) = clock_best o n >> pure tt
  run (opens lease_ms force owner extensions) =
      open_session o lease_ms force owner extensions >> pure tt
  run (ends_previous sid owner corr) = end_previous o sid owner corr >> pure tt
  run (subscribes fn min_bytes max_delay_ms) = subscribe (ask o) fn min_bytes max_delay_ms
  run (unsubscribes fn) = unsubscribe o fn
  run (describes fn) = describe (ask o) fn >> pure tt
  run (lists name exact) = list_entries o name exact >> pure tt
  run (finds name revision) = find o name revision >> pure tt
  run (requires_op fn op) = require_op o fn op
  run (pipelines requests_ locked) = pipeline o requests_ locked >> pure tt
  run (pipelines_calls requests_ locked) = pipeline_calls o requests_ locked >> pure tt

  unfoldable pub run_all : List Operation → Client × L → Client × L
  run_all [] s = s
  run_all (op ∷ ops) s = run_all ops (run op s).1
