-- ===== src/Obs.antt =====
-- internal/obs: the counters that the daemon, the admin socket and the metrics share.
pub mod Opening
pub mod Routes
pub mod State
mod Tests
