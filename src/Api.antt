-- ===== src/Api.antt =====
-- internal/api: how a request gets its account.
pub mod Iter
pub mod Gate
