-- ===== src/VirtualCore.antt =====
-- src/oep_client/virtual_core.py: the probe's core (fn 0) of the core-v1 profile, which has no extension:
-- the lock and its lease, the record of answers for requests sent again, and the eight operations.
pub mod State
pub mod Tail
pub mod Record
pub mod Operations
pub mod Handle
pub mod Invariant
pub mod Lock
pub mod Remember
pub mod Replay
pub mod Resend
pub mod Lease
pub mod Ended
mod Examples
