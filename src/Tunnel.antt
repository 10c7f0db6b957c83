-- ===== src/Tunnel.antt =====
-- pkg/tunnel: the messages, digests, credentials and sessions that nodes and servers share.
pub mod Message
pub mod Digest
pub mod Credential
pub mod Sessions
pub mod Mux
pub mod Client
