-- ===== src/Tests.antt =====
-- The definitions at concrete inputs.
pub mod Fixtures
mod Examples
mod EndToEnd
mod Opens
mod Runs
mod Handling
mod Parts
mod KeyFiles
mod Serving
mod Tools
mod Coder
mod ClientRuns
mod Discovered
mod Setup
