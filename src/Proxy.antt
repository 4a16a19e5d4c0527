-- ===== src/Proxy.antt =====
-- The HTTP front of the ingress mode: internal/transport/proxy.
pub mod Router
pub mod Detect
pub mod Messages
pub mod Http
pub mod Cors
pub mod Sse
pub mod Streamable
pub mod Dispatch
pub mod Accepted
mod Examples
mod Witnesses
