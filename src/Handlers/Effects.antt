-- ===== src/Handlers/Effects.antt =====
-- What the calls of dev/src/index.js ask of the wallet, whom they let in, what they show and refuse,
-- and what they delete.
pub mod Reward
pub mod Joining
pub mod Refund
pub mod Privacy
pub mod Entering
pub mod Secret
pub mod Deletion
pub mod Retrying
pub mod Resolving
pub mod Recording
pub mod Clearing
