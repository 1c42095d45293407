-- ===== src/Checks.antt =====
-- Tests: the theorems applied to concrete data.
mod Wire
mod DataWires
mod EventWires
mod Postcards
mod Sample
mod Writing
mod Parts
mod Replaying
mod Paging
mod Registering
mod SortedStore
mod Arenas
mod Logs
mod Repairs
mod BlockPages
mod Restarting
mod Migrating
mod Correlating
