-- ===== src/Endpoint.antt =====
-- src/oep_client/endpoint.py: the parts of the virtual endpoint that keep no thread and no clock.
pub mod Take
pub mod Examples
