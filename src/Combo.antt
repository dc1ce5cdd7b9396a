-- ===== src/Combo.antt =====
-- gorouter/internal/combo/combo.go: a combo's items tried in order until one decides the answer.
pub mod Data
pub mod Attempt
pub mod Execute
pub mod Decided
pub mod Effects
pub mod Skipped
pub mod Untouched
