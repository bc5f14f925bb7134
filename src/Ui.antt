-- ===== src/Ui.antt =====
-- internal/ui: the view-model and its pure helpers.
pub mod State
pub mod Theme
pub mod Draw
pub mod Layout
pub mod Grouping
pub mod Bubble
pub mod View
pub mod Pairing
pub mod Composer
pub mod Rows
