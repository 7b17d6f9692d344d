-- ===== src/HostSession/Sound/Quick.antt =====
-- A keepalive of an open session needs no other request before it, and a quick request outside the session
-- needs a keepalive at the most.
use oep_client_python.Prelude.{
  ℕ, ◌<◌, ◌==◌, ◌≡◌, refl, ap, ◌∙◌, subst, inl, inr, Bool, true, false, Option, none, some, [],
  arith, Option-cases, Bool-cases,
}
use oep_client_python.Bytes.{Bytes}
use oep_client_python.Registry.{core_fn, op_keepalive}
use oep_client_python.Message.Header.{Result}
use oep_client_python.HostSession.Exec.{
  Raised, not_usable, continue, returned, raised, pure, throw, ◌>>=◌, ◌>>◌,
}
use oep_client_python.HostSession.State.{Client, is_quick}
use oep_client_python.HostSession.Outside.{Outside, Method, Requests, when}
use oep_client_python.HostSession.Asking.{
  require_usable, subscribe_again, know_max_op_ms, session_for, session_room,
}
use oep_client_python.HostSession.Request.{session_or, exchange, request_with}
use oep_client_python.HostSession.Sound.{
  IsSession, IsClient, Since-refl, Changed, Led, Led-trans, Sound, Calm, Calm-Stays, Sound-weaken,
  Sound-when, Sound-bind,
}
use oep_client_python.HostSession.Sound.Changes.{Since-same}
use oep_client_python.HostSession.Sound.Requests.{
  exchange-Sound, Keepalives, Quicks, settled, knows, session_for_cases, session_or-Sound,
  session_room-Sound,
}

abbrev pub started : Client → Client
started c = record c { moved = [] }

pub started-Changed : (c : Client) → IsClient c → Changed c (started c)
started-Changed c i = (i, Since-same c _ refl refl refl refl refl (λ h. refl))

module _ {L A B : Type 0} where
  -- A method of which it is known what it does.
  continued :
      (m : Method L A) (f : A → Method L B) (s : Client × L) (a : A) (s' : Client × L)
      → m s ≡ (returned a, s')
      → (m >>= f) s ≡ f a s'
  unfolding ◌>>=◌
  continued m f s a s' e = ap (continue f) e

  pub stopped :
      (m : Method L A) (f : A → Method L B) (s : Client × L) (x : Raised) (s' : Client × L)
      → m s ≡ (raised x, s')
      → (m >>= f) s ≡ (raised x, s')
  unfolding ◌>>=◌
  stopped m f s x s' e = ap (continue f) e

module _ {L : Type 0} where
  when_not :
      {b : Bool} (m : Method L (Unit {0})) {s : Client × L}
      → b ≡ false
      → when b m s ≡ (returned tt, s)
  unfolding pure
  when_not m e = rw e refl

  is_usable_now :
      (c : Client) (l : L) → c.unusable ≡ false → require_usable (c, l) ≡ (returned tt, (c, l))
  unfolding require_usable pure throw
  is_usable_now c l e = ground (arith, e)

  pub is_unusable_now :
      (c : Client) (l : L) → c.unusable ≡ true → require_usable (c, l) ≡ (raised not_usable, (c, l))
  unfolding require_usable pure throw
  is_unusable_now c l e = ground (arith, e)

module _ {L : Type 0} (o : Outside L) (r : Requests L) where
  -- The end of a request.
  unfoldable pub sending : ℕ → ℕ → Bytes → ℕ → Method L Result
  sending fn op payload sid = when (sid == 0) (session_room r 1) >> exchange o sid fn op payload

  sending_held :
      (fn op : ℕ) (payload : Bytes) (sid : ℕ) (c : Client) (l : L)
      → 0 < sid
      → IsClient c
      → Led c (sending fn op payload sid (c, l))
  unfolding sending
  sending_held fn op payload sid c l above i =
      let other : (sid == 0) ≡ false = ground (arith, above) in
      rw
        (continued (when (sid == 0) (session_room r 1)) (λ u. exchange o sid fn op payload) (c, l)
          tt (c, l) (when_not (session_room r 1) other))
        ((exchange-Sound o sid fn op payload).at c l i tt)

  sending-Sound :
      (fn op : ℕ) (payload : Bytes) (sid : ℕ)
      → Keepalives r
      → Sound Calm (sending fn op payload sid)
  unfolding sending
  sending-Sound fn op payload sid h =
      Sound-bind Calm-Stays _ _ (Sound-when _ _ (session_room-Sound r Calm h 1))
        λ u. Sound-weaken _ (exchange-Sound o sid fn op payload)

  unfoldable pub ending : ℕ → ℕ → Bytes → Bool → Option ℕ → Method L Result
  ending fn op payload locked session = session_or r session locked >>= sending fn op payload

  pub ending-Sound :
      (fn op : ℕ) (payload : Bytes) (locked : Bool) (session : Option ℕ)
      → Keepalives r
      → Sound Calm (ending fn op payload locked session)
  unfolding ending
  ending-Sound fn op payload locked session h =
      Sound-bind Calm-Stays _ _ (Sound-weaken _ (session_or-Sound r session locked))
        λ sid. sending-Sound fn op payload sid h

  quick_start :
      (fn op : ℕ) (payload : Bytes) (locked : Bool) (session : Option ℕ) (c : Client) (l : L)
      → Calm c
      → is_quick fn op ≡ true
      → c.unusable ≡ false
      → request_with o r fn op payload locked session (c, l)
        ≡ ending fn op payload locked session (started c, l)
  unfolding request_with sending ending
  quick_start fn op payload locked session c l calm quick usable =
      continued require_usable _ (c, l) tt (c, l) (is_usable_now c l usable)
      ∙ (continued (subscribe_again r) _ (c, l) tt (started c, l) (settled r c l calm)
          ∙ continued (know_max_op_ms r (is_quick fn op)) (λ u. ending fn op payload locked session)
              (started c, l) tt (started c, l) (rw quick (knows r (started c) l)))

  pub unusable_start :
      (fn op : ℕ) (payload : Bytes) (locked : Bool) (session : Option ℕ) (c : Client) (l : L)
      → c.unusable ≡ true
      → request_with o r fn op payload locked session (c, l) ≡ (raised not_usable, (c, l))
  unfolding request_with require_usable
  unusable_start fn op payload locked session c l e =
      stopped require_usable _ (c, l) not_usable (c, l) (is_unusable_now c l e)

  -- The session's id goes out, or the probe has no v1.
  held_ending :
      (fn op : ℕ) (payload : Bytes) (sid : ℕ) (c : Client) (l : L)
      → c.host.session ≡ some sid
      → IsClient c
      → Led c (ending fn op payload true none (c, l))
  unfolding ending session_or
  held_ending fn op payload sid c l e i =
      let (above, v1) = subst (λ s. IsSession s c.revision) e i in
      elim (session_for_cases r c l sid e v1) [
        | inr (x, a, h) ↦
            rw (stopped (session_for r true) (sending fn op payload) (c, l) x (c, l) h)
              ((i, Since-refl c), a)
        | inl h ↦
            rw (continued (session_for r true) (sending fn op payload) (c, l) sid (c, l) h)
              (sending_held fn op payload sid c l above i)
      ]

  -- One round: a keepalive of an open session.
  pub first_round : Keepalives (request_with o r)
  unfolding is_quick
  first_round = record {
    at = λ c l i held. elim (Bool-cases c.unusable) [
      | inl e ↦ rw (unusable_start core_fn op_keepalive [] true none c l e) ((i, Since-refl c), tt)
      | inr e ↦ elim (Option-cases c.host.session) [
        | inl free ↦ absurd (ground (arith, held.1, free))
        | inr (sid, open_) ↦ rw (quick_start core_fn op_keepalive [] true none c l held.0 refl e) (
            Led-trans {L = L} c (started c)
              (ending core_fn op_keepalive [] true none (started c, l)) (started-Changed c i).1
              (held_ending core_fn op_keepalive [] sid (started c) l open_ i))
      ]
    ];
  }

  -- Two: a quick request outside the session.
  pub second_round : Keepalives r → Quicks Calm (request_with o r)
  second_round h op payload quick = record {
    at = λ c l i calm. elim (Bool-cases c.unusable) [
      | inl e ↦ rw (unusable_start core_fn op payload false none c l e) ((i, Since-refl c), tt)
      | inr e ↦ rw (quick_start core_fn op payload false none c l calm quick e) (
          Led-trans {L = L} c (started c) (ending core_fn op payload false none (started c, l))
            (started-Changed c i).1
            ((ending-Sound core_fn op payload false none h).at (started c) l i refl))
    ];
  }
