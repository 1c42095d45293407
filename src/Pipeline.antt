-- ===== src/Pipeline.antt =====
-- crates/nightfrost-chain: the chain-follow pipeline. `Chain` is a block as fetched, `Writer` the
-- entities of one block in a batch, with its children.
pub mod Chain
pub mod Writer
pub mod Replay
pub mod Counters
pub mod Retention
pub mod NodeBlocks
pub mod Startup
pub mod Run
pub mod Final
pub mod Restart
pub mod Restarted
