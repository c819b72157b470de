-- ===== src/Timer.antt =====
-- core/agentmgr/schedule.go and core/agentmgr/timer_agent.go: when a timer agent fires, and how it
-- is started and stopped.
pub mod Schedule
pub mod Agent
pub mod Accepted
pub mod Fires
pub mod Loops
mod Samples
