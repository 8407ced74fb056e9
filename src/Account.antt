-- ===== src/Account.antt =====
-- internal/pool/account.go and prewarm_probe.go: one upstream account.
pub mod State
pub mod Limits
pub mod Slots
pub mod Marks
pub mod Ready
