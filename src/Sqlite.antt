-- ===== src/Sqlite.antt =====
-- internal/store/sqlite/sqlite.go and migrations/0001_init.sql: the database by its tables, one
-- function for each statement.
pub mod Times
pub mod Tables
pub mod Users
pub mod Accounts
pub mod Sessions
pub mod Preferences
pub mod Rows
pub mod Invariant
pub mod Commands
pub mod Ownership
pub mod Maps
pub mod Scan
pub mod Migrations
pub mod Refinement
mod Examples
