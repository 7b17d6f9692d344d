-- ===== src/HostSession/Exec.antt =====
-- Methods of src/oep_client/host.py: they change the host and the link it sends on, and may raise.
-- What was changed before a raise stays changed.
pub mod Runs
pub mod Readers
use oep_client_python.Prelude.{ℕ, Bool, true, false}
use oep_client_python.Try.{Try, Error}
use oep_client_python.Message.Header.{Result}

-- What a method raises: Rejected, Failed, NotV1, NotUsable, UnsupportedRevision, UnusableFunction,
-- LookupError, what a link raises when no answer comes (TimeoutError, ConnectionError, OSError), or an
-- exception of the functions it calls.
-- `out_of_fuel` is none of Python's: the model's recursion went deeper than its bound.
pub data Raised : Type 0 where
  rejected : Result → Raised
  failed : Result → Raised
  not_v1 not_usable unsupported_revision unusable_function lookup_error no_answer : Raised
  python : Error → Raised
  out_of_fuel : Raised

pub data Outcome {ℓ} (A : Type ℓ) : Type ℓ where
  returned : A → Outcome A
  raised : Raised → Outcome A

abbrev pub outcome_of {ℓ} : {A : Type ℓ} → Try A → Outcome A
outcome_of (Try.ok a) = returned a
outcome_of (Try.raise e) = raised (python e)

abbrev pub Exec {ℓ} : Type ℓ → Type ℓ → Type ℓ
Exec S A = S → Outcome A × S

module _ {ℓ} {S A : Type ℓ} where
  unfoldable pub pure : A → Exec S A
  pure a s = (returned a, s)

  unfoldable pub throw : Raised → Exec S A
  throw e s = (raised e, s)

  unfoldable pub lift : Try A → Exec S A
  lift t s = (outcome_of t, s)

module _ {ℓ} {S A B : Type ℓ} where
  abbrev pub continue : (A → Exec S B) → Outcome A × S → Outcome B × S
  continue f (returned a, s) = f a s
  continue f (raised e, s) = (raised e, s)

  -- try: … except: the handler of what was raised, which may raise it again
  abbrev pub caught : (Raised → Exec S B) → (A → Exec S B) → Outcome A × S → Outcome B × S
  caught h f (returned a, s) = f a s
  caught h f (raised e, s) = h e s

  infixl 10 ◌>>=◌ ◌>>◌
  unfoldable pub ◌>>=◌ : Exec S A → (A → Exec S B) → Exec S B
  unfolding pure throw lift
  (m >>= f) s = continue f (m s)

  abbrev pub ◌>>◌ : Exec S A → Exec S B → Exec S B
  m >> n = m >>= λ _. n

  unfoldable pub try_ : Exec S A → (Raised → Exec S B) → (A → Exec S B) → Exec S B
  try_ m h f s = caught h f (m s)
