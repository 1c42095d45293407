-- ===== src/Api.antt =====
-- The HTTP API of crates/nightfrost-api, as far as it is its own logic.
pub mod Pagination
pub mod Routes
