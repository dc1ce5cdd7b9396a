-- ===== src/Db.antt =====
-- gorouter/internal/db/dbmanager.go: the records that the parts share, and the repositories of the JSON
-- driver. The store in memory is modelled; `save`, which writes it to a file, is not.
pub mod Types
pub mod Table
pub mod Kept
pub mod Unique
pub mod Providers
pub mod ApiKeys
pub mod Users
pub mod Models
pub mod RateLimits
pub mod Quotas
pub mod Aliases
pub mod Events
pub mod Combos
