-- ===== src/Try.antt =====
-- Python functions that may raise: a value, or the exception's class. `loop_bound` is no Python
-- exception: a loop of the model ran out of fuel.
use oep_client_python.Prelude.{◌≡◌, refl, ◌⊎◌, inl, inr, Bool, true, false, if◌then◌else◌}

pub data Error : Type 0 where
  value_error struct_error index_error : Error
  protocol_error short_payload : Error
  corrupt_frame framing_lost : Error
  invalid_ops invalid_name zero_division_error : Error
  loop_bound : Error

pub data Try {ℓ} (A : Type ℓ) : Type ℓ where
  ok : A → Try A
  raise : Error → Try A

infixl 10 ◌>>=◌ ◌>>◌
abbrev pub ◌>>=◌ {ℓ κ} : {A : Type ℓ} {B : Type κ} → Try A → (A → Try B) → Try B
ok a >>= f = f a
raise e >>= f = raise e

abbrev pub ◌>>◌ {ℓ κ} : {A : Type ℓ} {B : Type κ} → Try A → Try B → Try B
m >> k = m >>= λ _. k

-- `if not cond: raise e`
abbrev pub require : Bool → Error → Try (Unit {0})
require true e = ok tt
require false e = raise e

-- Inversion of a chain that succeeded.
pub >>=-eq_ok {ℓ κ} :
    {A : Type ℓ} {B : Type κ} (m : Try A) (f : A → Try B) {b : B}
    → (m >>= f) ≡ ok b
    → (a : A) × (m ≡ ok a) × (f a ≡ ok b)
>>=-eq_ok (ok a) f h = (a, refl, h)
>>=-eq_ok (raise e) f h = cc

pub Try-cases {ℓ} :
    {A : Type ℓ} (m : Try A) → ((a : A) × (m ≡ ok a)) ⊎ ((e : Error) × (m ≡ raise e))
Try-cases (ok a) = inl (a, refl)
Try-cases (raise e) = inr (e, refl)

-- An exception of Python's, and not the end of a model's fuel.
abbrev pub IsException : Error → Type 0
IsException value_error = Unit
IsException struct_error = Unit
IsException index_error = Unit
IsException protocol_error = Unit
IsException short_payload = Unit
IsException corrupt_frame = Unit
IsException framing_lost = Unit
IsException invalid_ops = Unit
IsException invalid_name = Unit
IsException zero_division_error = Unit
IsException loop_bound = ⊥

-- A value, or an exception.
abbrev pub IsEnd {ℓ} : {A : Type ℓ} → Try A → Type 0
IsEnd (ok a) = Unit
IsEnd (raise e) = IsException e

-- The fuel was enough.
pub record Terminates {ℓ} {A : Type ℓ} (t : Try A) : Type 0 where
  pub end : IsEnd t

module _ {ℓ} {A : Type ℓ} where
  pub Terminates-ok : (a : A) → Terminates (ok a)
  Terminates-ok a = record { end = tt }

  pub Terminates-raise : (e : Error) → IsException e → Terminates {A = A} (raise e)
  Terminates-raise e h = record { end = h }

  pub Terminates-if :
      (b : Bool) (m n : Try A) → Terminates m → Terminates n → Terminates (if b then m else n)
  Terminates-if true m n h k = h
  Terminates-if false m n h k = k

  -- An exception where a test fails
  pub Terminates-raise_if :
      (b : Bool) (e : Error) (m : Try A)
      → IsException e
      → Terminates m
      → Terminates (if b then raise e else m)
  Terminates-raise_if b e m h k = Terminates-if b (raise e) m (Terminates-raise e h) k

pub Terminates-bind {ℓ κ} :
    {A : Type ℓ} {B : Type κ} (m : Try A) (f : A → Try B)
    → Terminates m
    → ((a : A) → Terminates (f a))
    → Terminates (m >>= f)
Terminates-bind (ok a) f h k = k a
Terminates-bind (raise e) f h k = Terminates-raise e h.end

pub Terminates-require : (b : Bool) (e : Error) → IsException e → Terminates (require b e)
Terminates-require true e h = Terminates-ok tt
Terminates-require false e h = Terminates-raise e h
