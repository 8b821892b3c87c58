-- ===== src/Examples.antt =====
-- The theorems at concrete inputs: a small cluster, its requests, and its stores.
mod Data
mod Placement
mod Registries
mod Traffic
mod Stores
mod Checks
mod Concurrency
mod Threads
mod Whole
mod Process
mod Monitoring
mod NodeProcess
