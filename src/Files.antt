-- ===== src/Files.antt =====
-- internal/files: the unified file browser.
pub mod View
pub mod Sort
pub mod Cursor
pub mod Names
pub mod Service
mod Examples
