-- ===== src/HostSession/Sound/Others.antt =====
-- Pipelines, the clock and the list of interfaces are sound.
use oep_client_python.Prelude.{
  ℕ, zero, suc, ◌==◌, Bool, not, Option, none, some, List, [], ◌∷◌, ltb, length,
}
use oep_client_python.Try.{value_error}
use oep_client_python.Bytes.{Bytes}
use oep_client_python.Registry
use oep_client_python.Registry.{core_fn, op_list, op_restart, tag_ops}
use oep_client_python.Message.Header.{Request, Result, succeeded}
use oep_client_python.HostSession.Exec.Readers.{
  pack_request-Terminates, unpack_result-Terminates, read_clock-Terminates,
}
use oep_client_python.HostSession.Exec.{rejected, failed, python}
use oep_client_python.HostSession.Outside.{Outside, read_now}
use oep_client_python.HostSession.Request.{ask}
use oep_client_python.HostSession.Pipeline.{
  Calls, all_quick, number_all, pack_all, unpack_all, check_all, all_succeeded, transfer_all,
  pipeline, pipeline_calls,
}
use oep_client_python.HostSession.Clock.{ClockReading, better, clock, clock_rounds, clock_best}
use oep_client_python.HostSession.Sound.{
  Since-refl, Sound, Any, Any-Stays, Sound-pure, Sound-throw, Sound-if, Sound-lift, Sound-modify,
  Sound-when, Sound-bind,
}
use oep_client_python.HostSession.Sound.Changes.{note_rejected-Changed, boot_id_seen-Changed}
use oep_client_python.HostSession.Sound.Requests.{
  take_corr-Sound, answered-Sound, require_usable-Sound, transfer-Sound, session_for-Sound,
}
use oep_client_python.HostSession.Sound.Describes.{know_max_op_ms-Sound}
use oep_client_python.HostSession.Sound.Depth.{ask-Quicks, room-Sound, again-Sound}

module _ {L : Type 0} where
  number_all-Sound : (sid : ℕ) (calls : Calls) → Sound {L = L} Any (number_all sid calls)
  unfolding number_all
  number_all-Sound sid [] = Sound-pure []
  number_all-Sound sid ((fn, op, payload) ∷ calls) =
      Sound-bind Any-Stays _ _ (take_corr-Sound sid)
        λ corr. Sound-bind Any-Stays _ _ (number_all-Sound sid calls) λ more. Sound-pure _

  pack_all-Sound : (requests : List Request) → Sound {L = L} Any (pack_all requests)
  unfolding pack_all
  pack_all-Sound [] = Sound-pure []
  pack_all-Sound (r ∷ requests) =
      Sound-bind Any-Stays _ _ (Sound-lift _ (pack_request-Terminates r))
        λ raw. Sound-bind Any-Stays _ _ (pack_all-Sound requests) λ more. Sound-pure (raw ∷ more)

  unpack_all-Sound : (replies : List Bytes) → Sound {L = L} Any (unpack_all replies)
  unfolding unpack_all
  unpack_all-Sound [] = Sound-pure []
  unpack_all-Sound (raw ∷ replies) =
      Sound-bind Any-Stays _ _ (Sound-lift _ (unpack_result-Terminates raw))
        λ r. Sound-bind Any-Stays _ _ (unpack_all-Sound replies) λ more. Sound-pure (r ∷ more)

  check_all-Sound :
      (requests : List Request) (results : List Result)
      → Sound {L = L} Any (check_all requests results)
  unfolding check_all
  check_all-Sound [] results = Sound-pure tt
  check_all-Sound (q ∷ requests) [] = Sound-pure tt
  check_all-Sound (q ∷ requests) (r ∷ results) =
      Sound-if (r.corr == q.corr) _ _
        (Sound-bind Any-Stays _ _
          (Sound-when (r.resolution == Registry.rejected) _
            (Sound-modify _ (note_rejected-Changed r)))
          λ u. check_all-Sound requests results)
        (Sound-throw _ tt)

  all_succeeded-Sound : (results : List Result) → Sound {L = L} Any (all_succeeded results)
  unfolding all_succeeded
  all_succeeded-Sound [] = Sound-pure tt
  all_succeeded-Sound (r ∷ results) =
      Sound-if (r.resolution == Registry.rejected) _ _ (Sound-throw (rejected r) tt)
        (Sound-if (succeeded r) _ _ (all_succeeded-Sound results) (Sound-throw (failed r) tt))

module _ {L : Type 0} (o : Outside L) where
  transfer_all-Sound : (packed : List Bytes) → Sound Any (transfer_all o packed)
  unfolding transfer_all
  transfer_all-Sound [] = Sound-pure []
  transfer_all-Sound (raw ∷ packed) = Sound-bind Any-Stays _ _ (transfer-Sound o raw) λ reply.
      Sound-bind Any-Stays _ _ (transfer_all-Sound packed) λ more. Sound-pure (reply ∷ more)

  pub pipeline-Sound : (calls : Calls) (locked : Bool) → Sound Any (pipeline o calls locked)
  unfolding pipeline
  pipeline-Sound calls locked = Sound-bind Any-Stays _ _ require_usable-Sound λ u.
      Sound-bind Any-Stays _ _ (again-Sound o) λ u.
        Sound-bind Any-Stays _ _
          (know_max_op_ms-Sound Any Any-Stays (ask o) (all_quick calls) (ask-Quicks o))
          λ u. Sound-bind Any-Stays _ _ (session_for-Sound (ask o) locked) λ sid.
            Sound-bind Any-Stays _ _ (Sound-when (sid == 0) _ (room-Sound o (length calls))) λ u.
              Sound-bind Any-Stays _ _ (number_all-Sound sid calls) λ requests.
                Sound-bind Any-Stays _ _ (pack_all-Sound requests) λ packed.
                  Sound-bind Any-Stays _ _ (transfer_all-Sound packed) λ replies.
                    Sound-bind Any-Stays _ _ (unpack_all-Sound replies) λ results.
                      Sound-bind Any-Stays _ _ (check_all-Sound requests results)
                        λ u. Sound-pure results

  pub pipeline_calls-Sound :
      (calls : Calls) (locked : Bool) → Sound Any (pipeline_calls o calls locked)
  unfolding pipeline_calls
  pipeline_calls-Sound calls locked =
      Sound-bind Any-Stays _ _ (pipeline-Sound calls locked)
        λ results. Sound-bind Any-Stays _ _ (all_succeeded-Sound results) λ u. Sound-pure results

  read_now-Sound : Sound Any (read_now o)
  unfolding read_now
  read_now-Sound = record { at = λ c l i k. ((i, Since-refl c), tt) }

  pub clock-Sound : Sound Any (clock o)
  unfolding clock
  clock-Sound = Sound-bind Any-Stays _ _ require_usable-Sound λ u.
      Sound-bind Any-Stays _ _ (room-Sound o 1) λ u.
        Sound-bind Any-Stays _ _ (take_corr-Sound 0) λ corr.
          Sound-bind Any-Stays _ _ (Sound-lift _ (pack_request-Terminates _)) λ packed.
            Sound-bind Any-Stays _ _ read_now-Sound λ before.
              Sound-bind Any-Stays _ _ (transfer-Sound o packed) λ raw.
                Sound-bind Any-Stays _ _ read_now-Sound λ after.
                  Sound-bind Any-Stays _ _ (Sound-lift _ (unpack_result-Terminates raw)) λ result.
                    Sound-bind Any-Stays _ _ (answered-Sound corr result) λ r.
                      Sound-if (not (succeeded r)) _ _ (Sound-throw (failed r) tt) (
                        Sound-bind Any-Stays _ _ (Sound-lift _ (read_clock-Terminates r.payload))
                          λ read.
                            Sound-bind Any-Stays _ _ (Sound-modify _ (boot_id_seen-Changed read.0))
                              λ u. Sound-pure _)

  clock_rounds-Sound : (n : ℕ) (best : Option ClockReading) → Sound Any (clock_rounds o n best)
  unfolding clock_rounds
  clock_rounds-Sound zero best = Sound-pure best
  clock_rounds-Sound (suc n) best =
      Sound-bind Any-Stays _ _ clock-Sound λ r. clock_rounds-Sound n (some (better best r))

  pub clock_best-Sound : (n : ℕ) → Sound Any (clock_best o n)
  unfolding clock_best
  clock_best-Sound n =
      Sound-if (ltb n 1) _ _ (Sound-throw (python value_error) tt) (clock_rounds-Sound n none)
