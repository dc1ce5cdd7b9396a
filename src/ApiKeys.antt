-- ===== src/ApiKeys.antt =====
-- gorouter/internal/apikeys: keys made, validated, revoked and rotated, on the JSON store.
pub mod Create
pub mod Service
pub mod Access
pub mod Refused
pub mod Revoked
pub mod Slots
pub mod Rotation
