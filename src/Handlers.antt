-- ===== src/Handlers.antt =====
-- The functions that dev/src/index.js exports, each the body that it hands to `runJson`, and
-- `runJson` itself.
pub mod Checks
pub mod Config
pub mod Arenas
pub mod Admission
pub mod Match
pub mod Retry
pub mod Once
pub mod Effects
