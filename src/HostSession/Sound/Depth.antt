-- ===== src/HostSession/Sound/Depth.antt =====
-- `request` with the depth that every method gives it.
use oep_client_python.Prelude.{ℕ, suc, true, false, none, []}
use oep_client_python.Registry.{core_fn, op_keepalive}
use oep_client_python.HostSession.Outside.{Outside}
use oep_client_python.HostSession.Asking.{session_room, subscribe_again}
use oep_client_python.HostSession.Request.{request}
use oep_client_python.HostSession.Sound.{Sound, Any, Calm, Sound-weaken}
use oep_client_python.HostSession.Sound.Requests.{Keepalives, Quicks, Within, session_room-Sound}
use oep_client_python.HostSession.Sound.Quick.{first_round, second_round}
use oep_client_python.HostSession.Sound.Levels.{third_round, fourth_round, subscribe_again-Sound}

-- `request`, as deep as it needs.
module _ {L : Type 0} (o : Outside L) where
  request-Keepalives : (d : ℕ) → Keepalives (request o (suc d))
  unfolding request
  request-Keepalives d = first_round o (request o d)

  request-Quicks : (d : ℕ) → Quicks Calm (request o (suc (suc d)))
  unfolding request
  request-Quicks d = second_round o (request o (suc d)) (request-Keepalives d)

  request-Calm : (d : ℕ) → Within Calm (request o (suc (suc (suc d))))
  unfolding request
  request-Calm d =
      third_round o (request o (suc (suc d))) (request-Keepalives (suc d)) (request-Quicks d)

  pub request-Any : (d : ℕ) → Within Any (request o (suc (suc (suc (suc d)))))
  unfolding request
  request-Any d =
      fourth_round o (request o (suc (suc (suc d)))) (request-Calm d)
        (request-Keepalives (suc (suc d))) (request-Quicks (suc d))

  pub ask-Any : Within Any (request o 4)
  ask-Any = request-Any 0

  -- fn 0's quick requests, in any state
  pub ask-Quicks : Quicks Any (request o 4)
  ask-Quicks op payload quick = ask-Any core_fn op payload false none

  pub ask-Calm : Within Calm (request o 4)
  ask-Calm fn op payload locked session = Sound-weaken _ (ask-Any fn op payload locked session)

  pub room-Sound : (n : ℕ) → Sound Any (session_room (request o 4) n)
  room-Sound n =
      session_room-Sound (request o 4) Any
        (Sound-weaken _ (ask-Any core_fn op_keepalive [] true none)) n

  pub again-Sound : Sound Any (subscribe_again (request o 4))
  again-Sound = subscribe_again-Sound o (request o 4) ask-Calm
