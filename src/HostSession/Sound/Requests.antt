-- ===== src/HostSession/Sound/Requests.antt =====
-- Requests are sound and end: the requests that a request sends before it need fewer again.
use oep_client_python.Prelude.{
  ℕ, ◌≡◌, subst, ◌⊎◌, inl, inr, Bool, true, false, Option, none, some, [], arith, Option-cases,
  Bool-cases, if◌then◌else◌,
}
use oep_client_python.Bytes.{Bytes}
use oep_client_python.Registry.{core_fn, op_keepalive}
use oep_client_python.Message.Header.{Result}
use oep_client_python.Host.{short_of_room}
use oep_client_python.HostSession.Exec.Readers.{pack_request-Terminates, unpack_result-Terminates}
use oep_client_python.HostSession.Exec.{Raised, not_v1, returned, raised, pure, throw, ◌>>=◌, try_}
use oep_client_python.HostSession.Exec.Runs.{IsAnswer}
use oep_client_python.HostSession.State.{Client, is_quick, asks_max_op_ms}
use oep_client_python.HostSession.Outside.{Outside, Requests, of_client, transfer, answer_or}
use oep_client_python.HostSession.Asking.{
  require_usable, keepalive, subscribe_each, subscribe_again, know_max_op_ms, require_v1,
  session_for, session_room, is_none, is_rejected, is_v1,
}
use oep_client_python.HostSession.Request.{take_corr, answered, session_or, exchange}
use oep_client_python.HostSession.Sound.{
  IsSession, IsClient, Since-refl, Led, Led-bind, Led-caught, Sound, Any, Calm, Any-Stays,
  Sound-pure, Sound-throw, Sound-of_client, Sound-if, Sound-lift, Sound-modify, Sound-bind,
}
use oep_client_python.HostSession.Sound.Changes.{next_corr-Changed, note_rejected-Changed}

module _ {L : Type 0} where
  pub take_corr-Sound : (sid : ℕ) → Sound {L = L} Any (take_corr sid)
  unfolding take_corr
  take_corr-Sound sid =
      Sound-bind Any-Stays _ _ (Sound-modify _ (next_corr-Changed sid)) λ u. Sound-of_client _

  pub answered-Sound : (corr : ℕ) (r : Result) → Sound {L = L} Any (answered corr r)
  unfolding answered
  answered-Sound corr r =
      Sound-if _ _ _
        (Sound-if _ _ _
          (Sound-bind Any-Stays _ _ (Sound-modify _ (note_rejected-Changed r))
            λ u. Sound-throw _ tt)
          (Sound-pure r))
        (Sound-throw _ tt)

  pub require_usable-Sound : Sound {L = L} Any require_usable
  unfolding require_usable
  require_usable-Sound = record {
    at = λ c l i k.
        (Sound-if {K = Any} c.unusable _ _ (Sound-throw _ tt) (Sound-pure tt)).at c l i k;
  }

  answer_or-Led : (r : Option Bytes × L) (c : Client) → IsClient c → Led c (answer_or r c)
  answer_or-Led (none, l) c i = ((i, Since-refl c), tt)
  answer_or-Led (some raw, l) c i = ((i, Since-refl c), tt)

  pub transfer-Sound : (o : Outside L) (raw : Bytes) → Sound Any (transfer o raw)
  unfolding transfer
  transfer-Sound o raw = record { at = λ c l i k. answer_or-Led (o.transport raw l) c i }

  pub exchange-Sound :
      (o : Outside L) (sid fn op : ℕ) (payload : Bytes) → Sound Any (exchange o sid fn op payload)
  unfolding exchange
  exchange-Sound o sid fn op payload = Sound-bind Any-Stays _ _ (take_corr-Sound sid) λ corr.
      Sound-bind Any-Stays _ _ (Sound-lift _ (pack_request-Terminates _)) λ packed.
        Sound-bind Any-Stays _ _ (transfer-Sound o packed) λ raw.
          Sound-bind Any-Stays _ _ (Sound-lift _ (unpack_result-Terminates raw))
            λ r. answered-Sound corr r

-- A session is open, and nothing is left to subscribe again.
abbrev pub HeldIn : (Client → Type 0) → Client → Type 0
HeldIn K c = K c × (is_none c.host.session ≡ false)

abbrev pub Held : Client → Type 0
Held c = Calm c × (is_none c.host.session ≡ false)

module _ {L : Type 0} where
  -- What a request needs of the requests that it sends before its own.
  abbrev pub Keepalives : Requests L → Type 0
  Keepalives r = Sound Held (r core_fn op_keepalive [] true none)

  abbrev pub Quicks : (Client → Type 0) → Requests L → Type 0
  Quicks K r =
      (op : ℕ) (payload : Bytes)
      → is_quick core_fn op ≡ true
      → Sound K (r core_fn op payload false none)

  abbrev pub Within : (Client → Type 0) → Requests L → Type 0
  Within K r =
      (fn op : ℕ) (payload : Bytes) (locked : Bool) (session : Option ℕ)
      → Sound K (r fn op payload locked session)

  module _ (r : Requests L) where
    pub settled :
        (c : Client) (l : L)
        → Calm c
        → subscribe_again r (c, l) ≡ (returned tt, (record c { moved = [] }, l))
    unfolding subscribe_again subscribe_each pure
    settled c l e = ground (arith, e)

    asks_nothing : (c : Client) → asks_max_op_ms true c ≡ false
    unfolding asks_max_op_ms
    asks_nothing c = ground arith

    pub knows : (c : Client) (l : L) → know_max_op_ms r true (c, l) ≡ (returned tt, (c, l))
    unfolding know_max_op_ms pure
    knows c l = ground (arith, asks_nothing c)

    pub require_v1_cases :
        (c : Client) (l : L)
        → is_none c.revision ≡ false
        → (require_v1 r (c, l) ≡ (returned tt, (c, l)))
          ⊎ ((a : Raised) × IsAnswer a × (require_v1 r (c, l) ≡ (raised a, (c, l))))
    unfolding require_v1 ◌>>=◌ of_client pure throw
    require_v1_cases c l e = elim (Bool-cases (is_v1 c.revision)) [
      | inl h ↦ inl (ground (arith, e, h))
      | inr h ↦ inr (not_v1, tt, ground (arith, e, h))
    ]

    pub session_for_cases :
        (c : Client) (l : L) (sid : ℕ)
        → c.host.session ≡ some sid
        → is_none c.revision ≡ false
        → (session_for r true (c, l) ≡ (returned sid, (c, l)))
          ⊎ ((a : Raised) × IsAnswer a × (session_for r true (c, l) ≡ (raised a, (c, l))))
    unfolding session_for ◌>>=◌ of_client
    session_for_cases c l sid e v1 = elim (require_v1_cases c l v1) [
      | inl h ↦ inl (ground (arith, e, h))
      | inr (a, ends, h) ↦ inr (a, ends, ground (arith, e, h))
    ]

    no_session_for :
        (c : Client) (l : L) (locked : Bool)
        → c.host.session ≡ none
        → session_for r locked (c, l) ≡ (returned 0, (c, l))
    unfolding session_for
    no_session_for c l locked e = ground (arith, e)

    session_for_free : (c : Client) (l : L) → session_for r false (c, l) ≡ (returned 0, (c, l))
    unfolding session_for pure
    session_for_free c l = elim (Option-cases c.host.session) [
      | inl e ↦ ground (arith, e)
      | inr (sid, e) ↦ ground (arith, e)
    ]

    -- No confirm is sent: a host with a session has its revision.
    pub session_for-Sound : (locked : Bool) → Sound Any (session_for r locked)
    session_for-Sound false = record {
      at = λ c l i k. rw (session_for_free c l) ((i, Since-refl c), tt);
    }
    session_for-Sound true = record {
      at = λ c l i k. elim (Option-cases c.host.session) [
        | inl e ↦ rw (no_session_for c l true e) ((i, Since-refl c), tt)
        | inr (sid, e) ↦
            let (above, v1) = subst (λ o. IsSession o c.revision) e i in
            elim (session_for_cases c l sid e v1) [
              | inl h ↦ rw h ((i, Since-refl c), tt)
              | inr (a, ends, h) ↦ rw h ((i, Since-refl c), ends)
            ]
      ];
    }

    pub session_or-Sound :
        (session : Option ℕ) (locked : Bool) → Sound Any (session_or r session locked)
    unfolding session_or
    session_or-Sound none locked = session_for-Sound locked
    session_or-Sound (some sid) locked = Sound-pure sid

    keepalive-Sound :
        (K : Client → Type 0)
        → Sound (HeldIn K) (r core_fn op_keepalive [] true none)
        → Sound (HeldIn K) (keepalive r)
    unfolding keepalive ◌>>=◌
    keepalive-Sound K h = record {
      at = λ c l i k.
          Led-bind c _ _ (h.at c l i k) λ a c' l' e i' s. (Sound-pure {K = Any} tt).at c' l' i' tt;
    }

    short_of_room-session :
        (n sid : ℕ) (c : Client)
        → short_of_room n c.host ≡ some sid
        → is_none c.host.session ≡ false
    unfolding short_of_room
    short_of_room-session n sid c e = ground (arith, e)

    no_room_needed :
        (n : ℕ) (c : Client) (l : L)
        → short_of_room n c.host ≡ none
        → session_room r n (c, l) ≡ (returned tt, (c, l))
    unfolding session_room
    no_room_needed n c l e = ground (arith, e)

    kept_alive :
        (n sid : ℕ) (c : Client) (l : L)
        → short_of_room n c.host ≡ some sid
        → session_room r n (c, l)
          ≡ try_
              (keepalive r)
              (λ e. if is_rejected e then pure tt else throw e)
              (λ u. pure tt)
              (c, l)
    unfolding session_room
    kept_alive n sid c l e = ground (arith, e)

    pub session_room-Sound :
        (K : Client → Type 0)
        → Sound (HeldIn K) (r core_fn op_keepalive [] true none)
        → (n : ℕ) → Sound K (session_room r n)
    unfolding try_
    session_room-Sound K h n = record {
      at = λ c l i calm. elim (Option-cases (short_of_room n c.host)) [
        | inl e ↦ rw (no_room_needed n c l e) ((i, Since-refl c), tt)
        | inr (sid, e) ↦
            let held : HeldIn K c = (calm, short_of_room-session n sid c e) in
            rw (kept_alive n sid c l e) (
              Led-caught c (keepalive r (c, l)) _ _ ((keepalive-Sound K h).at c l i held)
                (λ x c' l' a i' s.
                  (Sound-if {K = Any} (is_rejected x) _ _ (Sound-pure tt) (Sound-throw x a)).at c'
                    l' i' tt)
                λ a c' l' e' i' s. (Sound-pure {K = Any} tt).at c' l' i' tt)
      ];
    }
