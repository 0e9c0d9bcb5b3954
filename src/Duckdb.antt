-- ===== src/Duckdb.antt =====
-- The engine driver, converge/duckdb.
pub mod TypeDecode
pub mod Values
pub mod Transactions
pub mod Times
pub mod Interrupt
pub mod Geometry
pub mod Nested
pub mod Driver
pub mod Variants
pub mod Results
pub mod Timestamps
