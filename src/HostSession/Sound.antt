-- ===== src/HostSession/Sound.antt =====
-- What every method of a host keeps, and how the state after it stands to the one before, with one rule for
-- each way to build a method.
pub mod Changes
pub mod Begun
pub mod Requests
pub mod Describes
pub mod Quick
pub mod Levels
pub mod Depth
pub mod Lock
pub mod Open
pub mod Others
pub mod Find
pub mod Runs
use oep_client_python.Prelude.{
  ℕ, ◌+◌, ◌≤◌, ◌<◌, ◌≡◌, refl, ◌∙◌, ◌⊎◌, inl, inr, Bool, true, false, Option, none, some, List, [],
  arith, if◌then◌else◌,
}
use oep_client_python.Try.{Try, Terminates}
use oep_client_python.HostSession.Exec.{
  Raised, Outcome, returned, raised, pure, throw, lift, continue, caught, ◌>>=◌, try_,
}
use oep_client_python.HostSession.Exec.Runs.{IsAnswer, Ends}
use oep_client_python.HostSession.State.{Client}
use oep_client_python.HostSession.Asking.{is_none}
use oep_client_python.HostSession.Outside.{Method, modify, of_client, when}

-- A session has an id, which is not 0, and a confirmed revision.
abbrev pub IsSession : Option ℕ → Option ℕ → Type 0
IsSession none revision = Unit
IsSession (some sid) revision = (0 < sid) × (is_none revision ≡ false)

abbrev pub IsClient : Client → Type 0
IsClient c = IsSession c.host.session c.revision

-- Something that the epoch counts: it was not there before, or it is the same, or the epoch went on.
abbrev pub Counted : Option ℕ → Option ℕ → ℕ → ℕ → Type 0
Counted before after e e' = (before ≡ none) ⊎ ((after ≡ before) ⊎ (e < e'))

-- How a host stands to the same host earlier.
pub record Since (a b : Client) : Type 0 where
  pub epoch : a.epoch ≤ b.epoch
  pub session : Counted a.host.session b.host.session a.epoch b.epoch
  pub boot_id : Counted a.boot_id b.boot_id a.epoch b.epoch
  pub unusable : a.unusable ≡ true → b.unusable ≡ true
  pub revision : is_none a.revision ≡ false → is_none b.revision ≡ false
  pub moved : a.moved ≡ [] → b.moved ≡ []

Counted-trans :
    (x y z : Option ℕ) (e f g : ℕ)
    → e ≤ f
    → f ≤ g
    → Counted x y e f
    → Counted y z f g
    → Counted x z e g
Counted-trans x y z e f g l m (inl h) k = inl h
Counted-trans x y z e f g l m (inr (inr h)) k = inr (inr (omega arith))
Counted-trans x y z e f g l m (inr (inl h)) (inl k) = inl (cc (h, k))
Counted-trans x y z e f g l m (inr (inl h)) (inr (inl k)) = inr (inl (k ∙ h))
Counted-trans x y z e f g l m (inr (inl h)) (inr (inr k)) = inr (inr (omega arith))

pub Since-refl : (a : Client) → Since a a
Since-refl a = record {
  epoch = omega arith;
  session = inr (inl refl);
  boot_id = inr (inl refl);
  unusable = λ h. h;
  revision = λ h. h;
  moved = λ h. h;
}

pub Since-trans : (a b c : Client) → Since a b → Since b c → Since a c
Since-trans a b c h k = record {
  epoch = let l = h.epoch in let m = k.epoch in omega arith;
  session =
      Counted-trans a.host.session b.host.session c.host.session a.epoch b.epoch c.epoch h.epoch
        k.epoch h.session k.session;
  boot_id =
      Counted-trans a.boot_id b.boot_id c.boot_id a.epoch b.epoch c.epoch h.epoch k.epoch h.boot_id
        k.boot_id;
  unusable = λ e. k.unusable (h.unusable e);
  revision = λ e. k.revision (h.revision e);
  moved = λ e. k.moved (h.moved e);
}

-- A change of the host that is sound.
abbrev pub Changed : Client → Client → Type 0
Changed a b = IsClient b × Since a b

module _ {L A : Type 0} where
  -- What a method has led to from `a`.
  abbrev pub Led : Client → Outcome A × (Client × L) → Type 0
  Led a (r, (c, l)) = Changed a c × Ends r

  -- Where K holds of a host that is sound.
  pub record Sound (K : Client → Type 0) (m : Method L A) : Type 0 where
    pub at : (c : Client) (l : L) → IsClient c → K c → Led c (m (c, l))

abbrev pub Any : Client → Type 0
Any c = Unit

-- No subscription is left on a closed transport.
abbrev pub Calm : Client → Type 0
Calm c = c.moved ≡ []

-- K stays.
abbrev pub Stays : (Client → Type 0) → Type 0
Stays K = (a b : Client) → Since a b → K a → K b

pub Any-Stays : Stays Any
Any-Stays a b h k = tt

pub Calm-Stays : Stays Calm
Calm-Stays a b h k = h.moved k

module _ {L A : Type 0} {K : Client → Type 0} where
  pub Sound-pure : (a : A) → Sound {L = L} K (pure a)
  unfolding pure
  Sound-pure a = record { at = λ c l i k. ((i, Since-refl c), tt) }

  pub Sound-throw : (e : Raised) → IsAnswer e → Sound {L = L} {A = A} K (throw e)
  unfolding throw
  Sound-throw e h = record { at = λ c l i k. ((i, Since-refl c), h) }

  pub Sound-of_client : (f : Client → A) → Sound {L = L} K (of_client f)
  unfolding of_client
  Sound-of_client f = record { at = λ c l i k. ((i, Since-refl c), tt) }

  pub Sound-if :
      (b : Bool) (m n : Method L A) → Sound K m → Sound K n → Sound K (if b then m else n)
  Sound-if true m n hm hn = hm
  Sound-if false m n hm hn = hn

  pub Sound-weaken : (m : Method L A) → Sound Any m → Sound K m
  Sound-weaken m h = record { at = λ c l i k. h.at c l i tt }

Led-lift :
    {L A : Type 0} (t : Try A) (c : Client) (l : L)
    → Terminates t
    → IsClient c
    → Led c (lift t (c, l))
unfolding lift
Led-lift (Try.ok a) c l h i = ((i, Since-refl c), tt)
Led-lift (Try.raise e) c l h i = ((i, Since-refl c), h.end)

pub Sound-lift :
    {L A : Type 0} {K : Client → Type 0} (t : Try A) → Terminates t → Sound {L = L} K (lift t)
Sound-lift t h = record { at = λ c l i k. Led-lift t c l h i }

pub Sound-modify :
    {L : Type 0} {K : Client → Type 0} (f : Client → Client)
    → ((c : Client) → IsClient c → Changed c (f c))
    → Sound {L = L} K (modify f)
unfolding modify
Sound-modify f h = record { at = λ c l i k. (h c i, tt) }

pub Sound-when :
    {L : Type 0} {K : Client → Type 0} (b : Bool) (m : Method L (Unit {0}))
    → Sound K m
    → Sound K (when b m)
Sound-when b m h = Sound-if b m (pure tt) h (Sound-pure tt)

pub Led-trans :
    {L A : Type 0} (a b : Client) (r : Outcome A × (Client × L)) → Since a b → Led b r → Led a r
Led-trans a b (r, (c, l)) h ((i, k), e) = ((i, Since-trans a b c h k), e)

module _ {L A B : Type 0} where
  pub Led-bind :
      (c : Client) (r : Outcome A × (Client × L)) (f : A → Method L B)
      → Led c r
      → ((a : A) (c' : Client) (l' : L)
          → r ≡ (returned a, (c', l'))
          → IsClient c'
          → Since c c'
          → Led c' (f a (c', l')))
      → Led c (continue f r)
  Led-bind c (returned a, (c', l')) f ((i, h), e) k =
      Led-trans c c' (f a (c', l')) h (k a c' l' refl i h)
  Led-bind c (raised x, (c', l')) f led k = led

  -- A handler that the state did not stay the same for: whatever was raised
  pub Led-caught :
      (c : Client) (r : Outcome A × (Client × L)) (h : Raised → Method L B) (f : A → Method L B)
      → Led c r
      → ((x : Raised) (c' : Client) (l' : L)
          → IsAnswer x
          → IsClient c'
          → Since c c'
          → Led c' (h x (c', l')))
      → ((a : A) (c' : Client) (l' : L)
          → r ≡ (returned a, (c', l'))
          → IsClient c'
          → Since c c'
          → Led c' (f a (c', l')))
      → Led c (caught h f r)
  Led-caught c (returned a, (c', l')) h f ((i, s), e) hk k =
      Led-trans c c' (f a (c', l')) s (k a c' l' refl i s)
  Led-caught c (raised x, (c', l')) h f ((i, s), e) hk k =
      Led-trans c c' (h x (c', l')) s (hk x c' l' e i s)

module _ {L A B : Type 0} {K : Client → Type 0} (stays : Stays K) where
  pub Sound-bind :
      (m : Method L A) (f : A → Method L B)
      → Sound K m
      → ((a : A) → Sound K (f a))
      → Sound K (m >>= f)
  unfolding ◌>>=◌
  Sound-bind m f hm hf = record {
    at = λ c l i k.
        Led-bind c (m (c, l)) f (hm.at c l i k)
          λ a c' l' e i' h. (hf a).at c' l' i' (stays c c' h k);
  }

  pub Sound-try :
      (m : Method L A) (h : Raised → Method L B) (f : A → Method L B)
      → Sound K m
      → ((x : Raised) → IsAnswer x → Sound K (h x))
      → ((a : A) → Sound K (f a))
      → Sound K (try_ m h f)
  unfolding try_
  Sound-try m h f hm hh hf = record {
    at = λ c l i k.
        Led-caught c (m (c, l)) h f (hm.at c l i k)
          (λ x c' l' a i' s. (hh x a).at c' l' i' (stays c c' s k))
          λ a c' l' e i' s. (hf a).at c' l' i' (stays c c' s k);
  }

-- What follows a function that did not raise may use that.
module _ {L A B : Type 0} {K : Client → Type 0} where
  pub Sound-bind-lift :
      (t : Try A) (f : A → Method L B)
      → Terminates t
      → ((a : A) → t ≡ Try.ok a → Sound K (f a))
      → Sound K (lift t >>= f)
  unfolding ◌>>=◌
  Sound-bind-lift (Try.ok a) f h k = k a refl
  Sound-bind-lift (Try.raise e) f h k = record { at = λ c l i _. ((i, Since-refl c), h.end) }

module _ {L B : Type 0} {K : Client → Type 0} where
  pub Sound-elim :
      (b : Bool) (m n : Method L B)
      → Sound K m
      → (b ≡ false → Sound K n)
      → Sound K (elim b [ true ↦ m | false ↦ n ])
  Sound-elim true m n hm hn = hm
  Sound-elim false m n hm hn = hn refl
