-- ===== src/HostSession/Clock.antt =====
-- src/oep_client/host.py: `clock` and `clock_best`, and what a reading says.
use oep_client_python.Prelude.{
  ℕ, zero, suc, ◌+◌, ◌-◌, ◌/◌, ◌==◌, not, ◌||◌, Option, none, some, [], ltb, if◌then◌else◌,
}
use oep_client_python.Try.{value_error}
use oep_client_python.Registry.{core_fn, op_clock, no_session_id}
use oep_client_python.Message.Header.{new_request, pack_request, unpack_result, succeeded}
use oep_client_python.HostSession.Exec.{failed, python, pure, throw, lift, ◌>>=◌, ◌>>◌}
use oep_client_python.HostSession.State.{boot_id_seen}
use oep_client_python.HostSession.Answers.{read_clock}
use oep_client_python.HostSession.Outside.{Outside, Method, modify, transfer, read_now}
use oep_client_python.HostSession.Asking.{require_usable, session_room}
use oep_client_python.HostSession.Request.{take_corr, answered, ask}

-- The host's clock does not go back, so the round trip is not negative.
pub record ClockReading : Type 0 where
  pub before_ns : ℕ
  pub after_ns : ℕ
  pub uptime_ns : ℕ
  pub boot_id : ℕ
  pub round_trip_ns : ℕ

unfoldable pub host_ns : ClockReading → ℕ
host_ns r = (r.before_ns + r.after_ns) / 2

unfoldable pub uncertainty_ns : ClockReading → ℕ
uncertainty_ns r = (r.round_trip_ns + 1) / 2

-- The readings so far, and one more.
unfoldable pub better : Option ClockReading → ClockReading → ClockReading
better none r = r
better (some best) r =
    if not (r.boot_id == best.boot_id) || ltb r.round_trip_ns best.round_trip_ns then r else best

module _ {L : Type 0} (o : Outside L) where
  unfoldable pub clock : Method L ClockReading
  clock = do
    require_usable
    session_room (ask o) 1
    corr ← take_corr 0
    packed ← lift (pack_request (new_request corr core_fn op_clock [] (some no_session_id)))
    before ← read_now o
    raw ← transfer o packed
    after ← read_now o
    result ← lift (unpack_result raw)
    r ← answered corr result
    if not (succeeded r) then throw (failed r) else do
      (boot_id, uptime_ns) ← lift (read_clock r.payload)
      modify (boot_id_seen boot_id)
      pure (record {
        before_ns = before;
        after_ns = after;
        uptime_ns = uptime_ns;
        boot_id = boot_id;
        round_trip_ns = after - before;
      })

  -- The rounds after those that gave `best`
  unfoldable pub clock_rounds : ℕ → Option ClockReading → Method L (Option ClockReading)
  clock_rounds zero best = pure best
  clock_rounds (suc n) best = do r ← clock; clock_rounds n (some (better best r))

  unfoldable pub clock_best : ℕ → Method L (Option ClockReading)
  clock_best n = if ltb n 1 then throw (python value_error) else clock_rounds n none
