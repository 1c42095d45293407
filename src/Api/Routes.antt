-- ===== src/Api/Routes.antt =====
-- crates/nightfrost-api/src/routes.rs: the anchored pages and the routes on blocks and status.
pub mod Context
pub mod Blocks
pub mod BlockTxs
pub mod Indexes
pub mod Rows
pub mod Pages
