-- ===== src/Names/Examples.antt =====
-- The theorems on src/oep_client/names.py at concrete inputs, and tests.
use oep_client_python.Prelude.{◌≡◌, refl, false, [], ◌∷◌}
use oep_client_python.Try.{ok, raise, invalid_name}
use oep_client_python.Names.{Name, validate, matches}
use oep_client_python.Names.Labels.{begins, labels_of, matches-begins}

-- oep.wire.swd
abbrev wire_swd : Name
wire_swd = b'o' ∷ b'e' ∷ b'p' ∷ b'.' ∷ b'w' ∷ b'i' ∷ b'r' ∷ b'e' ∷ b'.' ∷ b's' ∷ b'w' ∷ b'd' ∷ []

-- oep.wir
abbrev half_label : Name
half_label = b'o' ∷ b'e' ∷ b'p' ∷ b'.' ∷ b'w' ∷ b'i' ∷ b'r' ∷ []

-- oep.wire
abbrev two_labels : Name
two_labels = b'o' ∷ b'e' ∷ b'p' ∷ b'.' ∷ b'w' ∷ b'i' ∷ b'r' ∷ b'e' ∷ []

matches_half : matches wire_swd half_label false ≡ false
unfolding matches
matches_half = refl

validate_two : validate two_labels ≡ raise invalid_name
unfolding validate
validate_two = refl

validate_hyphen : validate (b'a' ∷ b'.' ∷ b'-' ∷ b'b' ∷ []) ≡ raise invalid_name
unfolding validate
validate_hyphen = refl

matches-begins_example :
    matches wire_swd two_labels false ≡ begins (labels_of two_labels) (labels_of wire_swd)
matches-begins_example = matches-begins wire_swd two_labels (λ e. cc)

validate-wire_swd : validate wire_swd ≡ ok wire_swd
unfolding validate
validate-wire_swd = refl
