-- ===== src/HostSession/Sound/Lock.antt =====
-- The methods on the lock are sound.
use oep_client_python.Prelude.{
  drop, ℕ, ◌==◌, ◌≡◌, refl, inl, inr, true, false, not, ◌&&◌, Option, none, some, List, [], arith,
  Option-cases,
}
use oep_client_python.Try.{value_error}
use oep_client_python.Registry.{lease_min_ms, core_fn, op_end, op_unsubscribe}
use oep_client_python.HostSession.Exec.Readers.{
  read_lock_state-Terminates, read_lock_fixed-Terminates, owner_of-Terminates, open_body-Terminates,
  read_reopened-Terminates,
}
use oep_client_python.HostSession.Exec.{Raised, python, returned, ◌>>=◌}
use oep_client_python.HostSession.Exec.Runs.{IsAnswer}
use oep_client_python.HostSession.State.{Limits, Client, without}
use oep_client_python.HostSession.Outside.{Outside, modify}
use oep_client_python.HostSession.Asking.{confirm, require_v1, is_none, is_v1, is_zero, is_rejected}
use oep_client_python.HostSession.Request.{ask}
use oep_client_python.HostSession.Lock.{
  keep_ended, ended_with, lock_state, lock_owner, confirmed, false_if_rejected, end_previous,
  describe_core, end_session, unsubscribe,
}
use oep_client_python.HostSession.Sound.{
  IsClient, Since-refl, Changed, Sound, Any, Any-Stays, Sound-pure, Sound-throw, Sound-of_client,
  Sound-if, Sound-lift, Sound-modify, Sound-when, Sound-bind, Sound-try,
}
use oep_client_python.HostSession.Sound.Changes.{
  Since-same, boot_id_seen-Changed, keep_ended-Changed, ended_with-Changed, with_corr-Changed,
}
use oep_client_python.HostSession.Sound.Describes.{describe-Sound, confirm_for-Sound, call-Sound}
use oep_client_python.HostSession.Sound.Depth.{ask-Any, ask-Quicks}

unsubscribed-Changed :
    (fn : ℕ) (c : Client)
    → IsClient c
    → Changed c (record c { subscriptions = without fn c.subscriptions })
unsubscribed-Changed fn c i = (i, Since-same c _ refl refl refl refl refl (λ h. h))

module _ {L : Type 0} (o : Outside L) where
  nothing_to_end :
      (c : Client) (l : L)
      → c.host.session ≡ none
      → end_session o (c, l) ≡ (returned tt, (keep_ended c, l))
  unfolding end_session
  nothing_to_end c l e = ground (arith, e)

  ending_session :
      (c : Client) (l : L) (sid : ℕ)
      → c.host.session ≡ some sid
      → end_session o (c, l) ≡ (ask o core_fn op_end [] true none >>= λ r. modify ended_with) (c, l)
  unfolding end_session
  ending_session c l sid e = ground (arith, e)

  pub confirm-Sound : Sound Any (confirm (ask o))
  unfolding confirm
  confirm-Sound =
      Sound-bind Any-Stays _ _ (Sound-of_client _)
        λ range. confirm_for-Sound Any Any-Stays (ask o) range λ payload. ask-Any o _ _ _ _ _

  pub require_v1-Sound : Sound Any (require_v1 (ask o))
  unfolding require_v1
  require_v1-Sound = Sound-bind Any-Stays _ _ (Sound-of_client _) λ before.
      Sound-bind Any-Stays _ _
        (Sound-when (is_none before) _ (
          Sound-try Any-Stays _ _ _ confirm-Sound
            (λ e a. Sound-bind Any-Stays _ _ (Sound-of_client _) λ after.
              Sound-if (is_rejected e && is_zero after) _ _ (Sound-throw _ tt) (Sound-throw e a))
            (λ limits. Sound-pure tt)))
        λ u.
          Sound-bind Any-Stays _ _ (Sound-of_client _)
            λ revision. Sound-if (is_v1 revision) _ _ (Sound-pure tt) (Sound-throw _ tt)

  pub lock_state-Sound : Sound Any (lock_state o)
  unfolding lock_state
  lock_state-Sound =
      Sound-bind Any-Stays _ _ (ask-Any o _ _ _ _ _)
        λ r. Sound-lift _ (read_lock_state-Terminates r.payload)

  pub lock_owner-Sound : Sound Any (lock_owner o)
  unfolding lock_owner
  lock_owner-Sound = Sound-bind Any-Stays _ _ (ask-Any o _ _ _ _ _) λ r.
      Sound-bind Any-Stays _ _ (Sound-lift _ (read_lock_fixed-Terminates r.payload)) λ state.
        Sound-bind Any-Stays _ _
          (Sound-lift _ (owner_of-Terminates o.decode_utf8 (drop 5 r.payload)))
          λ owner. Sound-pure _

  limits_there :
      (c : Client) (l : L) (limits : Limits)
      → c.limits ≡ some limits
      → confirmed o (c, l) ≡ (returned limits, (c, l))
  unfolding confirmed
  limits_there c l limits e = ground (arith, e)

  no_limits : (c : Client) (l : L) → c.limits ≡ none → confirmed o (c, l) ≡ confirm (ask o) (c, l)
  unfolding confirmed
  no_limits c l e = ground (arith, e)

  pub confirmed-Sound : Sound Any (confirmed o)
  confirmed-Sound = record {
    at = λ c l i k. elim (Option-cases c.limits) [
      | inl e ↦ rw (no_limits c l e) (confirm-Sound.at c l i tt)
      | inr (limits, e) ↦ rw (limits_there c l limits e) ((i, Since-refl c), tt)
    ];
  }

  false_if_rejected-Sound : (e : Raised) → IsAnswer e → Sound {L = L} Any (false_if_rejected o e)
  false_if_rejected-Sound e a = Sound-if (is_rejected e) _ _ (Sound-pure false) (Sound-throw e a)

  pub end_previous-Sound :
      (sid : ℕ) (owner : List ℕ) (corr : Option ℕ) → Sound Any (end_previous o sid owner corr)
  unfolding end_previous
  end_previous-Sound sid owner corr =
      Sound-bind Any-Stays _ _ (Sound-modify _ (with_corr-Changed corr)) λ u.
        Sound-bind Any-Stays _ _ lock_state-Sound λ state.
          Sound-if (not state.0) _ _ (Sound-pure false) (
            Sound-bind Any-Stays _ _
              (Sound-lift _ (open_body-Terminates o.encode_utf8 lease_min_ms false owner []))
              λ body. Sound-try Any-Stays _ _ _ (ask-Any o _ _ _ _ _) false_if_rejected-Sound λ r.
                Sound-bind Any-Stays _ _ (Sound-lift _ (read_reopened-Terminates r.payload))
                  λ boot_id.
                    Sound-bind Any-Stays _ _ (Sound-modify _ (boot_id_seen-Changed boot_id)) λ u.
                      Sound-try Any-Stays _ _ _ (ask-Any o _ _ _ _ _) false_if_rejected-Sound
                        λ r'. Sound-pure true)

  pub describe_core-Sound : Sound Any (describe_core o)
  describe_core-Sound =
      Sound-bind Any-Stays _ _ (describe-Sound Any Any-Stays (ask o) core_fn (ask-Quicks o))
        λ rows. Sound-pure tt

  pub end_session-Sound : Sound Any (end_session o)
  end_session-Sound = record {
    at = λ c l i k. elim (Option-cases c.host.session) [
      | inl e ↦ rw (nothing_to_end c l e) (keep_ended-Changed c i, tt)
      | inr (sid, e) ↦ rw (ending_session c l sid e) (
          (Sound-bind Any-Stays _ _ (ask-Any o _ _ _ _ _)
              λ r. Sound-modify _ (λ c i. ended_with-Changed c)).at
            c l i tt)
    ];
  }

  pub unsubscribe-Sound : (fn : ℕ) → Sound Any (unsubscribe o fn)
  unfolding unsubscribe
  unsubscribe-Sound fn = Sound-if (fn == 0) _ _ (Sound-throw (python value_error) tt) (
      Sound-bind Any-Stays _ _
        (call-Sound Any Any-Stays (ask o) fn op_unsubscribe [] (ask-Any o _ _ _ _ _))
        λ r. Sound-modify _ (unsubscribed-Changed fn))
