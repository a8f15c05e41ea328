-- ===== src/Tests.antt =====
-- Runs of the server on concrete requests, and the theorems at concrete inputs.
mod Fixtures
mod Handlers
mod Files
mod Runs
mod Locks
mod Clients
mod Shown
mod Missed
