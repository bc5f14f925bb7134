-- ===== src/Tests.antt =====
-- Concrete inputs: a driver that never fails, a small database, and the theorems at them.
pub mod Data
mod Paging
mod Messages
mod Media
pub mod Wa
pub mod Ui
mod Batch
mod Migrations
mod Format
mod Window
mod Bubble
mod Main
mod Pairing
mod Send
mod Search
mod Images
mod Frame
