-- ===== src/Tests.antt =====
-- Runs of the calls of dev/src/index.js, of the pages and of the bridge at concrete inputs, against a host
-- with its tables in memory.
mod Sample
mod Match
mod Entering
mod Lobby
mod Joining
mod Account
mod Lifecycle
mod Admin
mod Bridge
mod Client
mod Owner
mod PublicPage
mod Retry
mod Sdk
