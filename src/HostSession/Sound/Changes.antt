-- ===== src/HostSession/Sound/Changes.antt =====
-- The changes that the methods of a host make to what it keeps are sound.
use oep_client_python.Prelude.{
  ℕ, ◌<◌, ◌≡◌, refl, ◌⊎◌, inl, inr, true, false, Option, none, some, [], arith, Option-cases,
  Bool-cases, ◌==◌,
}
use oep_client_python.KeptSession.{Kept, opened, ended}
use oep_client_python.Host.{next_corr}
use oep_client_python.Message.Header.{Result}
use oep_client_python.HostSession.State.{
  Limits, Client, with_session, swept, lost, is_rebooted, boot_id_seen, note_rejected,
}
use oep_client_python.HostSession.Asking.{is_none, confirmed_with}
use oep_client_python.HostSession.Lock.{with_kept, keep_ended, keep_opened, ended_with, with_corr}
use oep_client_python.HostSession.Sound.{
  IsSession, IsClient, Since, Since-refl, Since-trans, Changed,
}

-- What the change leaves of the fields that count: the session, the boot_id, the revision, the text of
-- `unusable` and the epoch.
pub Since-same :
    (a b : Client)
    → b.epoch ≡ a.epoch
    → b.host.session ≡ a.host.session
    → b.boot_id ≡ a.boot_id
    → b.unusable ≡ a.unusable
    → b.revision ≡ a.revision
    → (a.moved ≡ [] → b.moved ≡ [])
    → Since a b
Since-same a b e s o u r m = record {
  epoch = omega (arith, e);
  session = inr (inl s);
  boot_id = inr (inl o);
  unusable = λ h. rw u h;
  revision = λ h. rw r h;
  moved = m;
}

-- A loss that the epoch counts.
pub Since-counted :
    (a b : Client)
    → a.epoch < b.epoch
    → b.unusable ≡ a.unusable
    → (is_none a.revision ≡ false → is_none b.revision ≡ false)
    → b.moved ≡ []
    → Since a b
Since-counted a b e u r m = record {
  epoch = omega (arith, e);
  session = inr (inr e);
  boot_id = inr (inr e);
  unusable = λ h. rw u h;
  revision = r;
  moved = λ h. m;
}

pub swept-Changed : (c : Client) → Changed c (swept (with_session none c))
unfolding swept
swept-Changed c = (tt, Since-counted c _ (omega arith) refl (λ h. h) refl)

pub lost-Changed : (c : Client) → Changed c (lost (with_session none c))
unfolding swept lost
lost-Changed c = (tt, Since-counted c _ (omega arith) refl (λ h. h) refl)

pub note_rejected-Changed : (r : Result) (c : Client) → IsClient c → Changed c (note_rejected r c)
unfolding note_rejected
note_rejected-Changed r c i = ground (arith, Since-refl c, swept-Changed c)

-- Only another boot_id than the one seen before counts as a loss.
pub boot_id_seen_cases :
    (boot_id : ℕ) (c : Client)
    → ((is_rebooted boot_id c ≡ true)
        × (boot_id_seen boot_id c ≡ record (lost c) { boot_id = some boot_id }))
      ⊎ ((is_rebooted boot_id c ≡ false)
          × ((c.boot_id ≡ none) ⊎ (some boot_id ≡ c.boot_id))
          × (boot_id_seen boot_id c ≡ record c { boot_id = some boot_id }))
unfolding boot_id_seen is_rebooted
boot_id_seen_cases boot_id c = elim (Option-cases c.boot_id) [
  | inl e ↦ inr (ground (arith, e), inl e, ground (arith, e))
  | inr (old, e) ↦ elim (Bool-cases (boot_id == old)) [
    | inl same ↦ inr (ground (arith, e), inr (ground (arith, e, same)), ground (arith, e, same))
    | inr other ↦ inl (ground (arith, e), ground (arith, e, other))
  ]
]

pub boot_id_seen-Changed :
    (boot_id : ℕ) (c : Client) → IsClient c → Changed c (boot_id_seen boot_id c)
unfolding lost swept
boot_id_seen-Changed boot_id c i = elim (boot_id_seen_cases boot_id c) [
  | inl (new, e) ↦ rw e (i, Since-counted c _ (omega arith) refl (λ h. h) refl)
  | inr (old, known, e) ↦ rw e (
    i,
    record {
      epoch = omega arith;
      session = inr (inl refl);
      boot_id = elim known [ inl h ↦ inl h | inr h ↦ inr (inl h) ];
      unusable = λ h. h;
      revision = λ h. h;
      moved = λ h. h;
    },
  )
]

IsSession-some :
    (session revision : Option ℕ) (r : ℕ) → IsSession session revision → IsSession session (some r)
IsSession-some none revision r h = tt
IsSession-some (some sid) revision r (above, h) = (above, refl)

pub with_revision-Changed :
    (r : ℕ) (limits : Option Limits) (c : Client)
    → IsClient c
    → Changed c (record c { revision = some r; limits = limits })
with_revision-Changed r limits c i = (
  IsSession-some c.host.session c.revision r i,
  record {
    epoch = omega arith;
    session = inr (inl refl);
    boot_id = inr (inl refl);
    unusable = λ h. h;
    revision = λ h. refl;
    moved = λ h. h;
  },
)

pub Changed-trans : (a b c : Client) → Changed a b → (IsClient b → Changed b c) → Changed a c
Changed-trans a b c (i, h) k = let (j, h') = k i in (j, Since-trans a b c h h')

pub confirmed_with-Changed :
    (limits : Limits) (c : Client) → IsClient c → Changed c (confirmed_with limits c)
unfolding confirmed_with
confirmed_with-Changed limits c i =
    Changed-trans c (boot_id_seen limits.boot_id c) _ (boot_id_seen-Changed limits.boot_id c i)
      (with_revision-Changed limits.revision (some limits) (boot_id_seen limits.boot_id c))

pub next_corr-Changed :
    (sid : ℕ) (c : Client) → IsClient c → Changed c (record c { host = next_corr sid c.host })
unfolding next_corr
next_corr-Changed sid c i = (i, Since-same c _ refl refl refl refl refl (λ h. h))

with_kept_cases :
    (f : Kept → Kept) (c : Client)
    → (with_kept f c ≡ c)
      ⊎ ((k : Kept) × (with_kept f c ≡ record c { host = record (c.host) { kept = some k } }))
with_kept_cases f c = elim (Option-cases c.host.kept) [
  | inl e ↦ inl (ground (arith, e))
  | inr (k, e) ↦ inr (f k, ground (arith, e))
]

with_kept-Changed : (f : Kept → Kept) (c : Client) → IsClient c → Changed c (with_kept f c)
with_kept-Changed f c i = elim (with_kept_cases f c) [
  | inl e ↦ rw e (i, Since-refl c)
  | inr (k, e) ↦ rw e (i, Since-same c _ refl refl refl refl refl (λ h. h))
]

pub keep_opened-Changed : (sid : ℕ) (c : Client) → IsClient c → Changed c (keep_opened sid c)
unfolding keep_opened
keep_opened-Changed sid c i = with_kept-Changed (opened sid c.host.corr) c i

pub keep_ended-Changed : (c : Client) → IsClient c → Changed c (keep_ended c)
unfolding keep_ended
keep_ended-Changed c i = with_kept-Changed ended c i

pub ended_with-Changed : (c : Client) → Changed c (ended_with c)
unfolding ended_with
ended_with-Changed c =
    Changed-trans c (swept (with_session none c)) _ (swept-Changed c)
      (keep_ended-Changed (swept (with_session none c)))

pub with_corr-Changed : (corr : Option ℕ) (c : Client) → IsClient c → Changed c (with_corr corr c)
with_corr-Changed none c i = (i, Since-refl c)
with_corr-Changed (some n) c i = (i, Since-same c _ refl refl refl refl refl (λ h. h))
