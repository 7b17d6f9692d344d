-- ===== src/Message.antt =====
-- src/oep_client/message.py: the request and result headers, TLV tails, the reader of a result's
-- fixed part, and serial numbers that wrap.
pub mod Header
pub mod Tlv
pub mod Reader
pub mod Serial
mod Examples
