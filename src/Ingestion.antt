-- ===== src/Ingestion.antt =====
-- The ingestion pipeline (app/ingestion): task queue, Tenrai adapter, jobs.
pub mod Enums
pub mod Errors
pub mod Runtime
pub mod Breaker
pub mod Limiter
pub mod Adapter
pub mod Tasks
pub mod Raw
pub mod Runs
pub mod World
pub mod Fetch
pub mod Parsers
pub mod Clean
pub mod Listing
pub mod Discovery
