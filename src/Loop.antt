-- ===== src/Loop.antt =====
-- engine/loop.py: the agent loop.
pub mod Words
pub mod Echo
pub mod Types
pub mod Turn
pub mod Calls
pub mod Run
pub mod Kept
pub mod Stages
pub mod Limits
pub mod Parts
pub mod Passes
pub mod Bounds
pub mod Gating
mod Examples
