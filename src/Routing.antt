-- ===== src/Routing.antt =====
-- gorouter/internal/routing/router.go: `Router`, the choice of a provider for a model.
pub mod Sorting
pub mod Select
pub mod Best
pub mod Weighted
pub mod Orders
pub mod Sound
pub mod Chosen
