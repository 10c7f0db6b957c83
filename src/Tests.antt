-- ===== src/Tests.antt =====
-- Runs at concrete inputs: the theorems' hypotheses hold there.
pub mod Data
pub mod Rendezvous
pub mod Wire
pub mod Market
pub mod Recipe
pub mod Glog
pub mod Parser
pub mod Variables
pub mod Handlers
pub mod Directory
pub mod Client
pub mod Archive
