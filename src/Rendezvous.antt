-- ===== src/Rendezvous.antt =====
-- pkg/rendezvous: the meeting point of nodes behind NAT.
pub mod State
pub mod Cadence
pub mod Counters
pub mod Identity
pub mod Signature
pub mod Admission
pub mod Registry
pub mod Control
pub mod Limiter
pub mod Directory
pub mod Metrics
