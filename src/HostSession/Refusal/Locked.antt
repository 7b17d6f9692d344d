-- ===== src/HostSession/Refusal/Locked.antt =====
-- src/oep_client/host.py: the readers of `Locked`.
use oep_client_python.Prelude.{ℕ, Option, List, leb, length, drop, if◌then◌else◌}
use oep_client_python.Try.{Try, ok, raise, struct_error}
use oep_client_python.Bytes.{Bytes, field}
use oep_client_python.Message.Header.{Result}
use oep_client_python.HostSession.Refusal.{owner_of}

-- struct.unpack("<I", payload[:4])[0]
unfoldable pub remaining_ms : Result → Try ℕ
remaining_ms r = if leb 4 (length r.payload) then ok (field r.payload 0 4) else raise struct_error

unfoldable pub owner : (Bytes → List ℕ) → Result → Try (Option (List ℕ))
unfolding owner_of
owner decode r = owner_of decode (drop 4 r.payload)
