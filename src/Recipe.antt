-- ===== src/Recipe.antt =====
-- pkg/recipe: the recipe language.
pub mod Flow
pub mod Tokens
pub mod Semver
pub mod Header
pub mod Include
pub mod Value
pub mod Expand
pub mod Builtins
