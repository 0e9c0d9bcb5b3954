-- ===== src/Duckdb/TypeDecode.antt =====
-- The decoder of TYPE cells, converge/duckdb/typedecode.go. `Reader` has the binary reader, `Types`
-- the decoded type and its text, `Decode` the decoder; the others are proofs.
pub mod Reader
pub mod Types
pub mod Decode
pub mod Fuel
pub mod Encode
pub mod RoundTrip
pub mod Quoting
mod Tests
