-- ===== src/Pool.antt =====
-- internal/pool/pool.go with what it uses of internal/secret, internal/adapter/types.go and
-- internal/auth/login.go: the account pool, its documents, and their encryption.
pub mod Secret
pub mod Usage
pub mod Member
pub mod Document
pub mod Names
pub mod State
pub mod Calls
pub mod Load
