-- ===== src/HostSession/Sound/Levels.antt =====
-- Four rounds of recursion are enough for any request: one for a keepalive, two for a quick one outside the
-- session, three where no subscription is left on a closed transport.
use oep_client_python.Prelude.{ℕ, ◌≡◌, refl, subst, inl, inr, none, some, arith, Option-cases}
use oep_client_python.HostSession.Exec.{returned, ◌>>=◌}
use oep_client_python.HostSession.State.{Client, is_quick, both}
use oep_client_python.HostSession.Outside.{Outside, Requests}
use oep_client_python.HostSession.Asking.{subscribe_each, subscribe_again}
use oep_client_python.HostSession.Request.{request_with}
use oep_client_python.HostSession.Sound.{
  IsClient, Led, Led-trans, Led-bind, Sound, Any, Calm, Any-Stays, Calm-Stays, Sound-weaken,
  Sound-bind,
}
use oep_client_python.HostSession.Sound.Requests.{
  require_usable-Sound, Keepalives, Quicks, Within, settled,
}
use oep_client_python.HostSession.Sound.Describes.{know_max_op_ms-Sound, subscribe_each-Sound}
use oep_client_python.HostSession.Sound.Quick.{
  started, started-Changed, sending, ending, ending-Sound,
}

module _ {L : Type 0} (o : Outside L) (r : Requests L) where
  subscribe_again-Calm : Sound Calm (subscribe_again r)
  subscribe_again-Calm = record {
    at = λ c l i calm. rw (settled r c l calm) (started-Changed c i, tt);
  }

  -- Three: any request where no subscription waits.
  pub third_round : Keepalives r → Quicks Calm r → Within Calm (request_with o r)
  unfolding request_with sending ending
  third_round h q fn op payload locked session =
      Sound-bind Calm-Stays _ _ (Sound-weaken _ require_usable-Sound) λ u.
        Sound-bind Calm-Stays _ _ subscribe_again-Calm λ u.
          Sound-bind Calm-Stays _ _ (know_max_op_ms-Sound Calm Calm-Stays r (is_quick fn op) q)
            λ u. ending-Sound o r fn op payload locked session h

  resubscribed :
      (c : Client) (l : L) (sid : ℕ)
      → c.host.session ≡ some sid
      → subscribe_again r (c, l) ≡ subscribe_each r (both c.moved c.subscriptions) (started c, l)
  unfolding subscribe_again
  resubscribed c l sid e = ground (arith, e)

  nothing_again :
      (c : Client) (l : L)
      → c.host.session ≡ none
      → subscribe_again r (c, l) ≡ (returned tt, (started c, l))
  unfolding subscribe_again
  nothing_again c l e = ground (arith, e)

  -- After it no subscription waits.
  subscribe_again-Led :
      (c : Client) (l : L)
      → Within Calm r
      → IsClient c
      → Led c (subscribe_again r (c, l)) × Calm (subscribe_again r (c, l)).1.0
  subscribe_again-Led c l w i = elim (Option-cases c.host.session) [
    | inl e ↦ rw (nothing_again c l e) ((started-Changed c i, tt), refl)
    | inr (sid, e) ↦
        let led =
          (subscribe_each-Sound r (both c.moved c.subscriptions) w).at (started c) l i refl in
        rw (resubscribed c l sid e) (
          Led-trans {L = L} c (started c)
              (subscribe_each r (both c.moved c.subscriptions) (started c, l))
              (started-Changed c i).1 led,
          led.0.1.moved refl,
        )
  ]

  pub subscribe_again-Sound : Within Calm r → Sound Any (subscribe_again r)
  subscribe_again-Sound w = record { at = λ c l i k. (subscribe_again-Led c l w i).0 }

  -- Four: any request.
  pub fourth_round : Within Calm r → Keepalives r → Quicks Calm r → Within Any (request_with o r)
  unfolding request_with sending ending ◌>>=◌
  fourth_round w h q fn op payload locked session =
      Sound-bind Any-Stays _ _ require_usable-Sound λ u. record {
        at = λ c l i k.
            let (led, calm) = subscribe_again-Led c l w i in
            Led-bind c (subscribe_again r (c, l)) _ led λ u c' l' e i' s.
              (Sound-bind Calm-Stays _ _ (know_max_op_ms-Sound Calm Calm-Stays r (is_quick fn op) q)
                  λ u. ending-Sound o r fn op payload locked session h).at
                c' l' i' (subst (λ x. Calm x.1.0) e calm);
      }
