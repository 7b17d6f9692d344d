-- ===== src/HostSession/Exec/Runs.antt =====
-- The outcomes of methods that end by themselves.
use oep_client_python.Try.{IsException}
use oep_client_python.HostSession.Exec.{
  Raised, rejected, failed, not_v1, not_usable, unsupported_revision, unusable_function,
  lookup_error, no_answer, python, out_of_fuel, Outcome, returned, raised,
}

-- It did not end for want of fuel, neither a method's own nor that of a function it calls.
abbrev pub IsAnswer : Raised → Type 0
IsAnswer out_of_fuel = ⊥
IsAnswer (rejected r) = Unit
IsAnswer (failed r) = Unit
IsAnswer not_v1 = Unit
IsAnswer not_usable = Unit
IsAnswer unsupported_revision = Unit
IsAnswer unusable_function = Unit
IsAnswer lookup_error = Unit
IsAnswer no_answer = Unit
IsAnswer (python e) = IsException e

abbrev pub Ends {ℓ} : {A : Type ℓ} → Outcome A → Type 0
Ends (returned a) = Unit
Ends (raised e) = IsAnswer e
