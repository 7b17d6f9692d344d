-- ===== src/HostSession/Sound/Begun.antt =====
-- What `open` takes of its answer is sound: one loss is counted, of the session left behind or of a reboot.
use oep_client_python.Prelude.{
  ℕ, ◌<◌, ◌≡◌, refl, ◌⊎◌, inl, inr, true, false, none, some, [], arith, Option-cases, Bool-cases,
}
use oep_client_python.HostSession.State.{
  Client, with_session, swept, lost, is_rebooted, boot_id_seen,
}
use oep_client_python.HostSession.Asking.{is_none}
use oep_client_python.HostSession.Lock.{opened_with}
use oep_client_python.HostSession.Sound.{IsClient, Changed}
use oep_client_python.HostSession.Sound.Changes.{
  Since-same, Since-counted, Changed-trans, boot_id_seen_cases, boot_id_seen-Changed,
}

-- A session begins where there was none, or after the loss of the one before.
begun : ℕ → Client → Client
begun sid c = with_session (some sid) (record c { subscriptions = [] })

begun-Changed :
    (sid : ℕ) (c : Client)
    → c.host.session ≡ none
    → 0 < sid
    → is_none c.revision ≡ false
    → Changed c (begun sid c)
unfolding begun
begun-Changed sid c e above v1 = (
  (above, v1),
  record {
    epoch = omega arith;
    session = inl e;
    boot_id = inr (inl refl);
    unusable = λ h. h;
    revision = λ h. h;
    moved = λ h. h;
  },
)

begun-swept-Changed :
    (sid : ℕ) (c : Client) → 0 < sid → is_none c.revision ≡ false → Changed c (begun sid (swept c))
unfolding begun swept
begun-swept-Changed sid c above v1 =
    ((above, v1), Since-counted c _ (omega arith) refl (λ h. h) refl)

with_lease : ℕ → Client → Client
with_lease lease c = record c { lease_ms = some lease }

with_lease-Changed : (lease : ℕ) (c : Client) → IsClient c → Changed c (with_lease lease c)
unfolding with_lease
with_lease-Changed lease c i = (i, Since-same c _ refl refl refl refl refl (λ h. h))

opened_with_cases :
    (sid lease boot_id : ℕ) (c : Client)
    → ((opened_with sid lease boot_id c ≡ with_lease lease (boot_id_seen boot_id (begun sid c)))
        × ((c.host.session ≡ none) ⊎ (is_rebooted boot_id (begun sid c) ≡ true)))
      ⊎ (opened_with sid lease boot_id c
          ≡ with_lease lease (boot_id_seen boot_id (begun sid (swept c))))
unfolding opened_with with_lease begun is_rebooted
opened_with_cases sid lease boot_id c = elim (Option-cases c.host.session) [
  | inl e ↦ inl (ground (arith, e), inl e)
  | inr (old, e) ↦ elim (Bool-cases (is_rebooted boot_id c)) [
    | inl new ↦ inl (ground (arith, e, new), inr new)
    | inr same ↦ inr (ground (arith, e, same))
  ]
]

-- A session left behind goes with the reboot, which counts once.
begun-rebooted-Changed :
    (sid boot_id : ℕ) (c : Client)
    → 0 < sid
    → is_none c.revision ≡ false
    → is_rebooted boot_id (begun sid c) ≡ true
    → Changed c (boot_id_seen boot_id (begun sid c))
unfolding begun lost swept
begun-rebooted-Changed sid boot_id c above v1 new =
    elim (boot_id_seen_cases boot_id (begun sid c)) [
      | inl (new', e) ↦ rw e ((above, v1), Since-counted c _ (omega arith) refl (λ h. h) refl)
      | inr (old, known, e) ↦ absurd (ground (arith, new, old))
    ]

pub opened_with-Changed :
    (sid lease boot_id : ℕ) (c : Client)
    → 0 < sid
    → is_none c.revision ≡ false
    → Changed c (opened_with sid lease boot_id c)
opened_with-Changed sid lease boot_id c above v1 =
    let seen = boot_id_seen boot_id (begun sid c) in
    let left = begun sid (swept c) in
    elim (opened_with_cases sid lease boot_id c) [
      | inl (e, why) ↦
          let began : Changed c seen = elim why [
            | inl free ↦
                Changed-trans c (begun sid c) seen (begun-Changed sid c free above v1)
                  (boot_id_seen-Changed boot_id (begun sid c))
            | inr new ↦ begun-rebooted-Changed sid boot_id c above v1 new
          ] in
          rw e (Changed-trans c seen (with_lease lease seen) began (with_lease-Changed lease seen))
      | inr e ↦
          let began : Changed c (boot_id_seen boot_id left) =
            Changed-trans c left (boot_id_seen boot_id left) (begun-swept-Changed sid c above v1)
              (boot_id_seen-Changed boot_id left) in
          rw e (
            Changed-trans c (boot_id_seen boot_id left)
              (with_lease lease (boot_id_seen boot_id left)) began
              (with_lease-Changed lease (boot_id_seen boot_id left)))
    ]
