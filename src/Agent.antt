-- ===== src/Agent.antt =====
-- internal/agent/agent.go: the agent, from its first connection to the end of its shutdown.
pub mod Running
pub mod Retiring
pub mod Streams
pub mod Shutdown
mod Tests
