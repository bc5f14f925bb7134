-- ===== src/Store.antt =====
-- internal/store: the local SQLite database, its schema, its writes and its reads.
pub mod Schema
pub mod Exec
pub mod Messages
pub mod Batch
pub mod Paging
pub mod ChatState
pub mod Reactions
pub mod Settings
pub mod WellFormed
pub mod Sound
pub mod Reads
pub mod Migrations
pub mod Search
