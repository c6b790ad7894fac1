-- ===== src/Edge.antt =====
-- internal/edge: the public side of a tunnel.
pub mod Registry
pub mod Limit
pub mod Conn
pub mod Balance
pub mod Attempt
pub mod Dispatch
pub mod Head
pub mod Serve
pub mod Ingress
pub mod AltSvc
pub mod StreamPool
pub mod Http3
