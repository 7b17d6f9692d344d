-- ===== src/HostSession/Refusal.antt =====
-- src/oep_client/host.py: what a refusal says: its class, and the readers of its payload.
pub mod Locked
pub mod Unsupported
pub mod Unavailable
use oep_client_python.Prelude.{
  ℕ, ◌==◌, Bool, true, false, not, ◌&&◌, ◌||◌, Option, none, some, List, [], ◌∷◌, leb, length, take,
  drop, get_or, if◌then◌else◌,
}
use oep_client_python.Try.{Try, ok, raise, struct_error, ◌>>=◌}
use oep_client_python.Bytes.{Bytes, le_value, field}
use oep_client_python.Registry.{
  locked, no_session, no_resource, unsupported, unavailable, tag_owner, tag_supported, tag_fixed,
  owner_max_bytes,
}
use oep_client_python.Message.Tlv.{Tlv, split_tlvs, get}
use oep_client_python.Message.Header.{Result}
use oep_client_python.Catalog.Entries.{shown}

-- Rejected and its subclasses
pub data Class : Type 0 where
  rejected_class locked_class no_session_class no_resource_class unsupported_class
        unavailable_class :
      Class

unfoldable pub rejection : Result → Class
rejection r =
    if r.detail == locked
    then locked_class
    else if r.detail == no_session
    then no_session_class
    else if r.detail == no_resource
    then no_resource_class
    else if r.detail == unsupported
    then unsupported_class
    else if r.detail == unavailable
    then unavailable_class
    else rejected_class

-- The first copy, when it has 1 to 32 bytes
abbrev pub shown_owner : (Bytes → List ℕ) → Option Bytes → Option (List ℕ)
shown_owner decode none = none
shown_owner decode (some value) =
    if leb 1 (length value) && leb (length value) owner_max_bytes
    then some (shown decode value)
    else none

unfoldable pub owner_of : (Bytes → List ℕ) → Bytes → Try (Option (List ℕ))
unfolding get shown
owner_of decode raw = do rows ← split_tlvs raw; ok (shown_owner decode (get rows tag_owner))

-- except ValueError: return []
abbrev pub rows_or_none : Try (List Tlv) → List Tlv
rows_or_none (ok rows) = rows
rows_or_none (raise e) = []

abbrev pub sized : ℕ → Option Bytes → Option Bytes
sized size none = none
sized size (some value) = if length value == size then some value else none

abbrev pub number_in : ℕ → Option Bytes → Option ℕ
number_in size none = none
number_in size (some value) = if length value == size then some (le_value value) else none
