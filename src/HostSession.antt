-- ===== src/HostSession.antt =====
-- src/oep_client/host.py: the session of a host, from the requests it sends over any link to what it
-- remembers of the probe. src/oep_client/core.py: list and describe, as the host asks for them.
pub mod Exec
pub mod State
pub mod Answers
pub mod Outside
pub mod Asking
pub mod Request
pub mod Lock
pub mod Pipeline
pub mod Clock
pub mod Find
pub mod Run
pub mod Confirmed
mod Examples
pub mod Agreement
pub mod Opens
pub mod Exchanged
pub mod Refusal
pub mod Sound
