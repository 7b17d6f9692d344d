-- ===== src/Endpoint/Examples.antt =====
-- The theorems on src/oep_client/endpoint.py at concrete inputs, and tests.
use oep_client_python.Prelude.{ℕ, ◌≡◌, ◌⊎◌, refl, true, false, none, some, List, [], ◌∷◌, length}
use oep_client_python.Try.{Error, ok, raise}
use oep_client_python.Bytes.{Bytes}
use oep_client_python.Registry.{malformed, unsupported}
use oep_client_python.Message.Tlv.{Tlv, split_tlvs}
use oep_client_python.VirtualCore.State.{accept, reject, ◌>>=◌}
use oep_client_python.Endpoint.Take.{Take, got_of, fixed, push_due, tail}
use oep_client_python.Endpoint.Take.Rules.{breaks_rules, unknown_of, known_of, first_of}
use oep_client_python.Endpoint.Take.Reading.{tail_rules}

-- A known option, an unknown critical one, and the known one again.
abbrev some_tail : Bytes
some_tail = 0x01 ∷ 1 ∷ 0 ∷ 7 ∷ 0x90 ∷ 0 ∷ 0 ∷ 0x01 ∷ 1 ∷ 0 ∷ 8 ∷ []

abbrev some_take : Take
some_take = record {
  payload = some_tail;
  at = 0;
  critical = [];
  repeated = [];
  unknown_critical = none;
  got = [];
}

abbrev one : List ℕ
one = 1 ∷ []

-- The broken rule wins over the unknown critical option before it.
tail_twice : tail one [] false some_take ≡ reject malformed []
unfolding tail
tail_twice = refl

tail_unknown : tail one one false some_take ≡ reject unsupported (0x90 ∷ [])
unfolding tail
tail_unknown = refl

tail_other_size : (tail one one true some_take >>= fixed 1 2) ≡ reject malformed []
unfolding tail fixed
tail_other_size = refl

push_due_nothing : push_due 0 0 9 0 true ≡ false
unfolding push_due
push_due_nothing = refl

tail_rules_example :
    ((((e : Error) × (split_tlvs some_tail ≡ raise e))
        ⊎ ((tlvs : List Tlv) × (split_tlvs some_tail ≡ ok tlvs)
            × (breaks_rules one [] tlvs ≡ true)))
      × (tail one [] false some_take ≡ reject malformed []))
    ⊎ ((tlvs : List Tlv) × (split_tlvs some_tail ≡ ok tlvs)
        × (breaks_rules one [] tlvs ≡ false)
        × (((tag : ℕ) × (unknown_of one [] tlvs ≡ some tag)
              × (tail one [] false some_take ≡ reject unsupported (tag ∷ [])))
            ⊎ ((unknown_of one [] tlvs ≡ none)
                × (t' : Take) × (tail one [] false some_take ≡ accept t')
                × (t'.repeated ≡ known_of one [] tlvs)
                × ((n : ℕ) → got_of n t'.got ≡ first_of n (known_of one [] tlvs))
                × (t'.at ≡ length some_tail))))
tail_rules_example = tail_rules one [] some_take refl
