-- ===== src/Audit.antt =====
-- The audit log of outbound requests: internal/storage/egress.go, internal/compliance/hashchain.go
-- and what writes to them.
pub mod Row
pub mod Store
pub mod Chain
pub mod Writer
pub mod LogMiddleware
pub mod Digest
mod Examples
