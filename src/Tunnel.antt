-- ===== src/Tunnel.antt =====
-- internal/tunnel: what travels at the start of a stream, and the control streams of agents.
pub mod Preamble
pub mod Control
