-- ===== src/Tests.antt =====
-- Runs of the code's definitions and of the theorems on concrete inputs.
mod Samples
mod RateLimits
mod Routes
mod Monitor
mod Combos
mod Chats
mod Users
mod Admins
mod Streams
mod Secrets
mod Configs
mod Guarded
mod Outputs
mod Keys
mod Store
mod Handlers
