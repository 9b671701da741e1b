-- ===== src/Network.antt =====
-- The network monitors.
pub mod Interface
pub mod LinkState
pub mod TrafficAlert
pub mod LinkMetrics
pub mod TrafficHistory
