-- ===== src/Alert.antt =====
-- The alert manager: src/alert_manager.cpp and include/alert_manager.hpp.
pub mod Types
pub mod Manager
pub mod Queries
pub mod Updates
pub mod Keys
pub mod Transitions
pub mod Events
pub mod Steady
pub mod Recorded
pub mod Active
pub mod Worst
pub mod Reach
