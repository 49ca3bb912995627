-- ===== src/Handlers/Once.antt =====
-- Calls of dev/src/index.js that are delivered again.
pub mod Kill
pub mod Disconnect
pub mod Payment
