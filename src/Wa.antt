-- ===== src/Wa.antt =====
-- internal/wa: from the events of whatsmeow to writes of the store and wake-ups of the view.
pub mod Proto
pub mod Extract
pub mod History
pub mod Handler
pub mod Updates
pub mod Dispatch
pub mod Pipeline
pub mod Synced
pub mod Sound
pub mod Format
pub mod Client
