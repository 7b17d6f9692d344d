-- ===== src/HostSession/Agreement.antt =====
-- The answers of the virtual endpoint's core, as the host reads them.
use oep_client_python.Prelude.{
  ℕ, ◌^◌, ◌≤◌, ◌<◌, ◌≡◌, refl, true, Option, some, [], ◌∷◌, ◌++◌, arith, Bool-cases, inl, inr, leb,
  ◌&&◌,
}
use oep_client_python.Try.{ok}
use oep_client_python.Bytes.{Bytes, field, le_bytes, le_value-le_bytes}
use oep_client_python.Registry.{confirm_result}
use oep_client_python.Message.Reader.{reader, take_bytes, u8, take_int, take_format, tail}
use oep_client_python.Message.Tlv.{get, split_tlvs, split_loop, split_one}
use oep_client_python.VirtualCore.State
use oep_client_python.VirtualCore.State.{Endpoint, Times, Core, core_tlv, is_some, release, same_id}
use oep_client_python.VirtualCore.Operations
use oep_client_python.VirtualCore.Operations.{open_op, lease_of, take_lock}
use oep_client_python.HostSession.State.{Limits}
use oep_client_python.HostSession.Answers.{read_opened, read_confirm}

-- The limits that a core declares
abbrev own_limits : Endpoint → ℕ → Limits
own_limits ep transport = record {
  revision = 1;
  max_frame = ep.max_frame;
  window = ep.window;
  max_inflight = ep.max_inflight;
  boot_id = ep.boot_id;
  transport = some transport;
  tail = (1, transport ∷ []) ∷ [];
}

lease_of-bounds :
    (ep : Endpoint) (asked : ℕ) → (1000 ≤ lease_of ep asked) × (lease_of ep asked ≤ 60000)
unfolding lease_of
lease_of-bounds ep asked = (omega arith, omega arith)

opened_fields :
    (lease boot_id : ℕ)
    → lease < 2 ^ 32
    → boot_id < 2 ^ 32
    → read_opened (le_bytes 4 lease ++ le_bytes 4 boot_id) ≡ ok (lease, boot_id)
unfolding read_opened reader tail split_tlvs split_loop
opened_fields lease boot_id l b =
    rw (le_value-le_bytes 4 lease l, le_value-le_bytes 4 boot_id b) refl

lease_opened :
    (ep : Endpoint) (t : Times) (sid : ℕ) (payload : Bytes) (owner : Option Bytes) (c : Core)
    → (open_op ep t sid payload owner c).1.lease ≡ lease_of ep (field payload 0 4)
unfolding open_op take_lock release
lease_opened ep t sid payload owner c = elim (Bool-cases (same_id sid c.holder)) [
  | inl e ↦ ground (arith, e)
  | inr e ↦ ground (arith, e)
]

-- What open answers the host reads as the lease that the core then has, which is from 1000 to 60000 ms
-- whatever was asked, and as the core's boot_id, if that fits a u32.
pub read_opened-open_op :
    (ep : Endpoint) (t : Times) (sid : ℕ) (payload : Bytes) (owner : Option Bytes) (c : Core)
    → ep.boot_id < 2 ^ 32
    → (read_opened (open_op ep t sid payload owner c).0
        ≡ ok ((open_op ep t sid payload owner c).1.lease, ep.boot_id))
      × (1000 ≤ (open_op ep t sid payload owner c).1.lease)
      × ((open_op ep t sid payload owner c).1.lease ≤ 60000)
unfolding open_op
read_opened-open_op ep t sid payload owner c b =
    let (low, high) = lease_of-bounds ep (field payload 0 4) in
    let lease = lease_opened ep t sid payload owner c in
    rw lease (
      opened_fields (lease_of ep (field payload 0 4)) ep.boot_id (omega (arith, high)) b,
      low,
      high,
    )

confirm_value : Endpoint → ℕ → Bytes
confirm_value ep transport =
    confirm_result
    ++ (1
        ∷ (le_bytes 2 ep.max_frame
            ++ (le_bytes 4 ep.window
                ++ (le_bytes 1 ep.max_inflight
                    ++ (le_bytes 4 ep.boot_id ++ core_tlv 1 (transport ∷ []))))))

confirm-confirm_value :
    (ep : Endpoint) (transport : ℕ) (payload value : Bytes)
    → Operations.confirm ep transport payload ≡ State.accept value
    → value ≡ confirm_value ep transport
unfolding Operations.confirm confirm_value
confirm-confirm_value ep transport payload value e = ground (arith, e)

confirm_fields :
    (ep : Endpoint) (transport low high : ℕ)
    → (leb low 1 && leb 1 high) ≡ true
    → ep.max_frame < 2 ^ 16
    → ep.window < 2 ^ 32
    → ep.max_inflight < 2 ^ 8
    → ep.boot_id < 2 ^ 32
    → read_confirm low high (confirm_value ep transport) ≡ ok (own_limits ep transport)
unfolding read_confirm confirm_value core_tlv reader take_bytes u8 take_format take_int tail
    split_tlvs split_loop split_one get
confirm_fields ep transport low high range mf w mi b =
    rw
      (
        range,
        le_value-le_bytes 2 ep.max_frame mf,
        le_value-le_bytes 4 ep.window w,
        le_value-le_bytes 1 ep.max_inflight mi,
        le_value-le_bytes 4 ep.boot_id b,
      )
      refl

-- confirm's answer to a range with revision 1 is read by the host as the core's own limits, on the transport
-- it came on.
pub read_confirm-confirm :
    (ep : Endpoint) (transport low high : ℕ) (payload value : Bytes)
    → low ≤ 1
    → 1 ≤ high
    → ep.max_frame < 2 ^ 16
    → ep.window < 2 ^ 32
    → ep.max_inflight < 2 ^ 8
    → ep.boot_id < 2 ^ 32
    → Operations.confirm ep transport payload ≡ State.accept value
    → read_confirm low high value ≡ ok (own_limits ep transport)
read_confirm-confirm ep transport low high payload value l h mf w mi b e =
    rw (confirm-confirm_value ep transport payload value e)
      (confirm_fields ep transport low high (ground (arith, l, h)) mf w mi b)
