-- ===== src/Tests.antt =====
-- Tests and examples: the theorems at concrete inputs.
mod Fixtures
mod Ledgers
mod Chains
mod Trees
mod Nodes
mod Watchers
mod Rounds
mod Servers
mod Restarts
mod Schedules
mod Addresses
