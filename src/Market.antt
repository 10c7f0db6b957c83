-- ===== src/Market.antt =====
-- pkg/market: the asset market.
pub mod Nonces
pub mod Versions
pub mod Store
pub mod Browse
pub mod AppRecipe
pub mod Meta
pub mod Http
pub mod Writes
pub mod Queries
pub mod Router
