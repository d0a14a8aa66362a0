-- ===== src/Tests.antt =====
-- Runs of the models at concrete inputs, and the theorems applied to them.
mod Stores
mod Requests
mod Pipelines
mod Texts
mod Clients
mod Diffs
mod Logs
mod Searches
mod Bodies
mod Builds
