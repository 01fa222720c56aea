-- ===== src/Store.antt =====
-- crates/pluribus-store-sqlite/src/lib.rs: the authoritative event store over SQLite tables.
pub mod Rows
pub mod Tables
pub mod Examples
pub mod Events
pub mod State
pub mod Delivery
pub mod Credentials
