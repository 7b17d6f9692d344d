-- ===== src/CaptureBlocks.antt =====
-- src/oep_client/capture_blocks.py: the readers of a capture's data formats: format 1, the logic blocks,
-- format 2, the analog blocks, and format 3, the timed states.
pub mod Analog
pub mod Logic
pub mod Timed
mod Examples
