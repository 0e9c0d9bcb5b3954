-- ===== src/HostFs.antt =====
-- The host file system of the engine, converge/wasishim/hostfs.go: files that the module opens by
-- path and names by descriptor. `Os` is the operating system, a parameter; `Memory` the module's
-- linear memory; `Handles` the state; `Open`, `Files` and `Paths` the calls; the others are proofs.
pub mod Os
pub mod Memory
pub mod State
pub mod Open
pub mod Files
pub mod Paths
pub mod Copy
pub mod Transfer
pub mod Listing
mod LockPaths
pub mod OpenFiles
pub mod Reach
mod Tests
