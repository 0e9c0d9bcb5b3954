-- ===== src/Duckdb/Driver/Nets.antt =====
-- Accounts of a handle in code of converge/duckdb: how often it was acquired and released, and rules
-- for what a piece of code that owns some of it adds and takes away.
mod Counts
mod Flow
mod Rules
unfoldable pub use Counts.*
pub use Flow.*
pub use Rules.*
