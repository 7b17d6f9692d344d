-- ===== src/HostSession/Refusal/Unavailable.antt =====
-- src/oep_client/host.py: the readers of `Unavailable`.
use oep_client_python.Prelude.{ℕ, ◌==◌, ◌&&◌, Option, List, [], ◌∷◌, length, if◌then◌else◌}
use oep_client_python.Bytes.{Bytes, le_value}
use oep_client_python.Message.Tlv.{Tlv, split_tlvs, get}
use oep_client_python.Message.Header.{Result}
use oep_client_python.HostSession.Refusal.{rows_or_none, sized, number_in}

unfoldable pub tlvs : Result → List Tlv
unfolding split_tlvs
tlvs r = rows_or_none (split_tlvs r.payload)

-- `_first`
unfoldable pub first : ℕ → ℕ → Result → Option Bytes
unfolding tlvs get
first tag size r = sized size (get (tlvs r) tag)

-- The cause's number, which has a name when it is one of CAUSES
unfoldable pub cause : Result → Option ℕ
unfolding first
cause r = number_in 1 (first 0x01 1 r)

unfoldable pub channels_in : List Tlv → List ℕ
channels_in [] = []
channels_in ((t, v) ∷ rows) =
    let rest = channels_in rows in if t == 0x02 && length v == 2 then le_value v ∷ rest else rest

unfoldable pub channels : Result → List ℕ
unfolding channels_in tlvs
channels r = channels_in (tlvs r)

unfoldable pub fn : Result → Option ℕ
unfolding first
fn r = number_in 2 (first 0x05 2 r)
