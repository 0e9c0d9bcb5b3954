-- ===== src/Wasi.antt =====
-- The WASI preview 1 file system of converge/wasishim/fs.go: files named by descriptors and by paths
-- below one preopened directory. `Os` is the operating system, a parameter, and `State` the state;
-- `Resolve`, `Iovecs`, `Transfer`, `Files`, `Open`, `Paths` and `Readdir` have the calls; the
-- others are proofs.
pub mod Os
pub mod State
pub mod Resolve
pub mod Iovecs
pub mod Transfer
pub mod Files
pub mod Open
pub mod Paths
pub mod Readdir
pub mod Listing
pub mod Calls
pub mod Confinement
pub mod Descriptors
mod Tests
