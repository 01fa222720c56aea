-- ===== src/Core.antt =====
-- The core vocabulary of crates/pluribus-core.
pub mod Identity
pub mod BlobRef
pub mod Event
pub mod Delivery
pub mod Registry
pub mod Authority
pub mod Blob
pub mod Examples
pub mod Net
