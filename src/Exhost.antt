-- ===== src/Exhost.antt =====
-- The C++ exception host: converge/exhost/host.go and its generated invoke trampolines.
pub mod Abi
pub mod Host
pub mod Calls
pub mod TypeIds
pub mod Matching
pub mod Header
pub mod Handlers
pub mod Trampolines
pub mod Cycle
mod Tests
