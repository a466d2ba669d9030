-- ===== src/Mux.antt =====
-- internal/mux/agent_mux.go: many connections over the one connection to the agent.
pub mod Connection
pub mod State
pub mod Teardown
pub mod Reader
pub mod Pinger
pub mod Calls
pub mod System
pub mod Table
pub mod Flow
pub mod Inversion
pub mod Invariant
pub mod Streams
pub mod Dials
pub mod Jobs
pub mod Death
pub mod Release
