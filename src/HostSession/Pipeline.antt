-- ===== src/HostSession/Pipeline.antt =====
-- src/oep_client/host.py: `pipeline` and `pipeline_calls`, without an `exchange`: one request at a time.
use oep_client_python.Prelude.{
  ℕ, ◌==◌, Bool, true, ◌&&◌, some, List, [], ◌∷◌, length, if◌then◌else◌,
}
use oep_client_python.Try.{protocol_error}
use oep_client_python.Bytes.{Bytes}
use oep_client_python.Registry
use oep_client_python.Message.Header.{
  Request, Result, new_request, pack_request, unpack_result, succeeded,
}
use oep_client_python.HostSession.Exec.{rejected, failed, python, pure, throw, lift, ◌>>=◌, ◌>>◌}
use oep_client_python.HostSession.State.{note_rejected, is_quick}
use oep_client_python.HostSession.Outside.{Outside, Method, modify, when, transfer}
use oep_client_python.HostSession.Asking.{
  require_usable, subscribe_again, know_max_op_ms, session_for, session_room,
}
use oep_client_python.HostSession.Request.{take_corr, ask}

-- The fn, the op and the payload of each request
abbrev pub Calls : Type 0
Calls = List (ℕ × ℕ × Bytes)

abbrev pub all_quick : Calls → Bool
all_quick [] = true
all_quick ((fn, op, payload) ∷ calls) = is_quick fn op && all_quick calls

module _ {L : Type 0} where
  unfoldable pub number_all : ℕ → Calls → Method L (List Request)
  number_all sid [] = pure []
  number_all sid ((fn, op, payload) ∷ calls) = do
    corr ← take_corr sid
    more ← number_all sid calls
    pure (new_request corr fn op payload (some sid) ∷ more)

  -- [r.pack() for r in reqs]
  unfoldable pub pack_all : List Request → Method L (List Bytes)
  pack_all [] = pure []
  pack_all (r ∷ requests) = do
    raw ← lift (pack_request r)
    more ← pack_all requests
    pure (raw ∷ more)

  unfoldable pub unpack_all : List Bytes → Method L (List Result)
  unpack_all [] = pure []
  unpack_all (raw ∷ replies) = do
    r ← lift (unpack_result raw)
    more ← unpack_all replies
    pure (r ∷ more)

  -- for req, res in zip(reqs, results)
  unfoldable pub check_all : List Request → List Result → Method L (Unit {0})
  check_all [] results = pure tt
  check_all (q ∷ requests) [] = pure tt
  check_all (q ∷ requests) (r ∷ results) =
      if r.corr == q.corr
      then when (r.resolution == Registry.rejected) (modify (note_rejected r))
        >> check_all requests results
      else throw (python protocol_error)

  -- The loop of `pipeline_calls`
  unfoldable pub all_succeeded : List Result → Method L (Unit {0})
  all_succeeded [] = pure tt
  all_succeeded (r ∷ results) =
      if r.resolution == Registry.rejected
      then throw (rejected r)
      else if succeeded r
      then all_succeeded results
      else throw (failed r)

module _ {L : Type 0} (o : Outside L) where
  unfoldable pub transfer_all : List Bytes → Method L (List Bytes)
  transfer_all [] = pure []
  transfer_all (raw ∷ packed) = do
    reply ← transfer o raw
    more ← transfer_all packed
    pure (reply ∷ more)

  unfoldable pub pipeline : Calls → Bool → Method L (List Result)
  pipeline calls locked = do
    require_usable
    subscribe_again (ask o)
    know_max_op_ms (ask o) (all_quick calls)
    sid ← session_for (ask o) locked
    when (sid == 0) (session_room (ask o) (length calls))
    requests ← number_all sid calls
    packed ← pack_all requests
    replies ← transfer_all packed
    results ← unpack_all replies
    check_all requests results
    pure results

  unfoldable pub pipeline_calls : Calls → Bool → Method L (List Result)
  pipeline_calls calls locked = do
    results ← pipeline calls locked
    all_succeeded results
    pure results
