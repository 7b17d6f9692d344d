-- ===== src/HostSession/Request.antt =====
-- src/oep_client/host.py: `request`, which sends before its own request what `Asking` says, by requests of its own.
-- Those need fewer again: the recursion is three deep at the most, and a fourth is for what the caller sends.
use oep_client_python.Prelude.{ℕ, zero, suc, ◌==◌, Bool, Option, none, some, if◌then◌else◌}
use oep_client_python.Try.{protocol_error}
use oep_client_python.Bytes.{Bytes}
use oep_client_python.Registry
use oep_client_python.Message.Header.{Result, new_request, pack_request, unpack_result}
use oep_client_python.Host.{next_corr}
use oep_client_python.HostSession.Exec.{
  rejected, python, out_of_fuel, pure, throw, lift, ◌>>=◌, ◌>>◌,
}
use oep_client_python.HostSession.State.{note_rejected, is_quick}
use oep_client_python.HostSession.Outside.{
  Outside, Method, Requests, modify, of_client, when, transfer,
}
use oep_client_python.HostSession.Asking.{
  require_usable, subscribe_again, know_max_op_ms, session_for, session_room,
}

module _ {L : Type 0} where
  unfoldable pub take_corr : ℕ → Method L ℕ
  take_corr sid = do
    modify (λ c. record c { host = next_corr sid c.host })
    of_client (λ c. c.host.corr)

  unfoldable pub answered : ℕ → Result → Method L Result
  answered corr r =
      if r.corr == corr
      then (if r.resolution == Registry.rejected
          then modify (note_rejected r) >> throw (rejected r)
          else pure r)
      else throw (python protocol_error)

  -- session if session is not None else self._session_for(locked)
  unfoldable pub session_or : Requests L → Option ℕ → Bool → Method L ℕ
  session_or requests (some sid) locked = pure sid
  session_or requests none locked = session_for requests locked

module _ {L : Type 0} (o : Outside L) where
  unfoldable pub exchange : ℕ → ℕ → ℕ → Bytes → Method L Result
  exchange sid fn op payload = do
    corr ← take_corr sid
    packed ← lift (pack_request (new_request corr fn op payload (some sid)))
    raw ← transfer o packed
    r ← lift (unpack_result raw)
    answered corr r

  unfoldable pub request_with : Requests L → Requests L
  request_with requests fn op payload locked session = do
    require_usable
    subscribe_again requests
    know_max_op_ms requests (is_quick fn op)
    sid ← session_or requests session locked
    when (sid == 0) (session_room requests 1)
    exchange sid fn op payload

  unfoldable pub request : ℕ → Requests L
  request zero = λ fn op payload locked session. throw out_of_fuel
  request (suc depth) = request_with (request depth)

  abbrev pub depth : ℕ
  depth = 4

  -- self.request
  abbrev pub ask : Requests L
  ask = request depth
