-- ===== src/Rendezvous/Registry.antt =====
-- The registry: what the frames of a control connection and the punches do to it.
pub mod Register
pub mod Services
pub mod Upkeep
pub mod Counted
pub mod Guarded
pub mod Lifecycle
