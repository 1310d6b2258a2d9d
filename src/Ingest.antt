-- ===== src/Ingest.antt =====
-- ingestion/batch/*.py: the outbox of PostgreSQL, read in bounded ranges of event ids into append-only
-- Bronze tables.
pub mod Query
pub mod Order
pub mod Batch
pub mod Prefix
pub mod Table
pub mod Cursor
pub mod Exact
pub mod Run
pub mod Total
pub mod Version
pub mod Extract
pub mod States
pub mod Lake
pub mod Invariant
mod Tests
