-- ===== src/Signal.antt =====
-- pkg/signal: the frames of the signaling stream.
pub mod Proto
