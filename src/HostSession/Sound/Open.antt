-- ===== src/HostSession/Sound/Open.antt =====
-- `open` is sound, with the end of the session that an earlier run of the host left.
use oep_client_python.Prelude.{
  ℕ, ◌<◌, ◌≡◌, refl, subst, ◌⊎◌, inl, inr, Bool, true, false, not, ◌||◌, Option, none, some, List,
  arith, Option-cases, Bool-cases, if◌then◌else◌,
}
use oep_client_python.Bytes.{Bytes}
use oep_client_python.KeptSession.{Kept, previous}
use oep_client_python.HostSession.Exec.Readers.{open_body-Terminates, read_opened-Terminates}
use oep_client_python.HostSession.Exec.{
  not_v1, Outcome, continue, returned, raised, pure, throw, ◌>>=◌, ◌>>◌,
}
use oep_client_python.HostSession.State.{Client}
use oep_client_python.HostSession.Outside.{Outside, Method, modify, of_client, random_id}
use oep_client_python.HostSession.Asking.{require_v1, is_none, is_v1}
use oep_client_python.HostSession.Request.{ask}
use oep_client_python.HostSession.Lock.{
  end_kept, before_open, describe_core, opened_with, opening, open_session,
}
use oep_client_python.HostSession.Sound.{
  IsClient, Since-refl, Changed, Led-trans, Led-bind, Sound, Any, Any-Stays, Stays, Sound-pure,
  Sound-of_client, Sound-weaken, Sound-lift, Sound-modify, Sound-when, Sound-bind,
}
use oep_client_python.HostSession.Sound.Changes.{Since-same, keep_opened-Changed}
use oep_client_python.HostSession.Sound.Depth.{ask-Any}
use oep_client_python.HostSession.Sound.Begun.{opened_with-Changed}
use oep_client_python.HostSession.Sound.Lock.{
  require_v1-Sound, end_previous-Sound, describe_core-Sound,
}

-- The revision is known, after `require_v1` has returned.
abbrev Known : Client → Type 0
Known c = is_none c.revision ≡ false

Known-Stays : Stays Known
Known-Stays a b h k = h.revision k

continued_inv :
    {L A B : Type 0} (r : Outcome A × (Client × L)) (f : A → Method L B) (b : B) (s' : Client × L)
    → continue f r ≡ (returned b, s')
    → (a : A) × (s1 : Client × L) × (r ≡ (returned a, s1)) × (f a s1 ≡ (returned b, s'))
continued_inv (returned a, s1) f b s' e = (a, s1, refl, e)
continued_inv (raised x, s1) f b s' e = absurd (ground (arith, e))

module _ {L A B : Type 0} where
  pub >>=-eq_returned :
      (m : Method L A) (f : A → Method L B) (s : Client × L) (b : B) (s' : Client × L)
      → (m >>= f) s ≡ (returned b, s')
      → (a : A) × (s1 : Client × L) × (m s ≡ (returned a, s1)) × (f a s1 ≡ (returned b, s'))
  unfolding ◌>>=◌
  >>=-eq_returned m f s b s' e = continued_inv (m s) f b s' e

judged-Known :
    {L : Type 0} (c c' : Client) (l l' : L)
    → (of_client {L = L} (λ c. c.revision) >>= λ revision.
          if is_v1 revision then pure tt else throw not_v1)
        (c, l)
      ≡ (returned tt, (c', l'))
    → Known c'
unfolding ◌>>=◌ of_client
judged-Known c c' l l' e = elim (Bool-cases (is_v1 c.revision)) [
  | inr other ↦ absurd (ground (arith, other, e))
  | inl v1 ↦
      let same : c ≡ c' = ground (arith, v1, e) in
      let known : Known c = ground (arith, v1) in subst Known same known
]

module _ {L : Type 0} (o : Outside L) where
  end_kept-Sound : (owner : List ℕ) (found : Option (ℕ × ℕ)) → Sound Any (end_kept o owner found)
  end_kept-Sound owner none = Sound-pure tt
  end_kept-Sound owner (some (sid, corr)) =
      Sound-bind Any-Stays _ _ (end_previous-Sound o sid owner (some corr)) λ done. Sound-pure tt

  kept_done-Changed : (c : Client) → IsClient c → Changed c (record c { kept_done = true })
  kept_done-Changed c i = (i, Since-same c _ refl refl refl refl refl (λ h. h))

  before_open_cases :
      (owner : List ℕ) (c : Client) (l : L)
      → (before_open o owner (c, l) ≡ (returned tt, (c, l)))
        ⊎ ((k : Kept) × (before_open o owner (c, l)
              ≡ (describe_core o >> end_kept o owner (previous k))
                  (record c { kept_done = true }, l)))
  unfolding before_open
  before_open_cases owner c l = elim (Option-cases c.host.kept) [
    | inl e ↦ inl (ground (arith, e))
    | inr (k, e) ↦ elim (Bool-cases (c.kept_done || not (is_none c.host.session))) [
      | inl done ↦ inl (ground (arith, e, done))
      | inr first ↦ inr (k, ground (arith, e, first))
    ]
  ]

  before_open-Sound : (owner : List ℕ) → Sound Any (before_open o owner)
  before_open-Sound owner = record {
    at = λ c l i k. elim (before_open_cases owner c l) [
      | inl e ↦ rw e ((i, Since-refl c), tt)
      | inr (kept, e) ↦
          let done = record c { kept_done = true } in
          rw e (
            Led-trans {L = L} c done
              ((describe_core o >> end_kept o owner (previous kept)) (done, l))
              (kept_done-Changed c i).1
              ((Sound-bind Any-Stays _ _ (describe_core-Sound o)
                  λ u. end_kept-Sound owner (previous kept)).at
                done l i tt))
    ];
  }

  opened_with-Sound :
      (sid lease boot_id : ℕ)
      → 0 < sid
      → Sound {L = L} Known (modify (opened_with sid lease boot_id))
  unfolding modify
  opened_with-Sound sid lease boot_id above = record {
    at = λ c l i k. (opened_with-Changed sid lease boot_id c above k, tt);
  }

  opening-Sound :
      (lease_ms sid : ℕ) (force : Bool) (owner : List ℕ) (extensions : List (List ℕ × Bytes))
      → 0 < sid
      → Sound Known (opening o lease_ms force owner extensions sid)
  unfolding opening
  opening-Sound lease_ms sid force owner extensions above =
      Sound-bind Known-Stays _ _
        (Sound-lift _ (open_body-Terminates o.encode_utf8 lease_ms force owner extensions))
        λ body. Sound-bind Known-Stays _ _ (Sound-weaken _ (ask-Any o _ _ _ _ _)) λ r.
          Sound-bind Known-Stays _ _ (Sound-lift _ (read_opened-Terminates r.payload)) λ answer.
            Sound-bind Known-Stays _ _ (Sound-of_client _) λ rebooted.
              Sound-bind Known-Stays _ _ (opened_with-Sound sid answer.0 answer.1 above) λ u.
                Sound-bind Known-Stays _ _ (Sound-of_client _) λ known.
                  Sound-bind Known-Stays _ _
                    (Sound-when _ _ (Sound-weaken _ (describe_core-Sound o)))
                    λ u.
                      Sound-bind Known-Stays _ _ (Sound-modify _ (keep_opened-Changed sid))
                        λ u. Sound-pure _

  random_id-above :
      (c : Client) (l : L) (sid : ℕ) (s : Client × L)
      → random_id o (c, l) ≡ (returned sid, s)
      → 0 < sid
  unfolding random_id
  random_id-above c l sid s e = ground (arith, o.randrange_above l)

  random_id-Sound : Sound Any (random_id o)
  unfolding random_id
  random_id-Sound = record { at = λ c l i k. ((i, Since-refl c), tt) }

  picking-Sound :
      (lease_ms : ℕ) (force : Bool) (owner : List ℕ) (extensions : List (List ℕ × Bytes))
      → Sound Known (random_id o >>= opening o lease_ms force owner extensions)
  unfolding ◌>>=◌
  picking-Sound lease_ms force owner extensions = record {
    at = λ c l i k.
        Led-bind c (random_id o (c, l)) _ (random_id-Sound.at c l i tt) λ sid c' l' e i' s.
          (opening-Sound lease_ms sid force owner extensions
              (random_id-above c l sid (c', l') e)).at
            c' l' i' (s.revision k);
  }

  require_v1-Known :
      (c c' : Client) (l l' : L) → require_v1 (ask o) (c, l) ≡ (returned tt, (c', l')) → Known c'
  unfolding require_v1
  require_v1-Known c c' l l' e =
      let (before, s1, e1, rest) = >>=-eq_returned _ _ (c, l) tt (c', l') e in
      let (u, s2, e2, rest2) = >>=-eq_returned _ _ s1 tt (c', l') rest in
      judged-Known s2.0 c' s2.1 l' rest2

  pub open_session-Sound :
      (lease_ms : ℕ) (force : Bool) (owner : List ℕ) (extensions : List (List ℕ × Bytes))
      → Sound Any (open_session o lease_ms force owner extensions)
  unfolding open_session ◌>>=◌
  open_session-Sound lease_ms force owner extensions = record {
    at = λ c l i k.
        Led-bind c (require_v1 (ask o) (c, l)) _ ((require_v1-Sound o).at c l i tt)
          λ u c' l' e i' s.
            (Sound-bind Known-Stays _ _ (Sound-weaken _ (before_open-Sound owner)) λ u.
                Sound-bind Known-Stays _ _ (Sound-of_client _) λ known.
                  Sound-bind Known-Stays _ _
                    (Sound-when _ _ (Sound-weaken _ (describe_core-Sound o)))
                    λ u. picking-Sound lease_ms force owner extensions).at
              c' l' i' (require_v1-Known c c' l l' e);
  }
