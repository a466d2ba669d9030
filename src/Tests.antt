-- ===== src/Tests.antt =====
-- The theorems applied at concrete inputs: Network holds instances of the parameters, and each of
-- the other children the tests of one part of the program.
pub mod Network
pub mod Wire
pub mod Routes
pub mod Channels
pub mod Settings
pub mod Names
pub mod Dials
pub mod Idle
pub mod Waits
pub mod Muxes
pub mod Resolvers
pub mod Upstreams
