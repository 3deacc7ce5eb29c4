-- ===== src/Tests.antt =====
-- Runs of the modelled code on concrete inputs, and each theorem with hypotheses at an input.
pub mod Capture
mod Ownership
mod Collation
mod Rows
mod Samples
mod Storage
mod Query
mod Timescale
mod Commands
mod Methods
mod Credentials
mod Publisher
mod Monitor
