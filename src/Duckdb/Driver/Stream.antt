-- ===== src/Duckdb/Driver/Stream.antt =====
-- The rows that `Next` of converge/duckdb/result.go delivers, over a result that the engine gives in
-- chunks.
mod Reaches
pub mod Feed
mod Refill
mod Cells
mod Delivery
mod Tests
