-- ===== src/Cognition.antt =====
-- The host's half of cognition: what an observation authorises, and who answers a request.
pub mod Authority
pub mod EventStore
mod Examples
pub mod Dispatch
