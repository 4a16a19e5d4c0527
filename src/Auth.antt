-- ===== src/Auth.antt =====
-- The identity of agents: internal/auth, internal/middleware/auth.go and
-- internal/middleware/httpauth.
pub mod Base58
pub mod KeyStore
pub mod Middleware
pub mod Stores
pub mod HttpAuth
pub mod KeyTable
mod Examples
