-- ===== src/Auth.antt =====
-- pkg/auth, and the third-party code that it and the servers rest on.
pub mod Crypto
pub mod Ethereum
pub mod Routes
