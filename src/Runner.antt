-- ===== src/Runner.antt =====
-- core/agentmgr: an agent's process, the channel it speaks on, and what the supervisor reports of it.
pub mod Control
pub mod Heard
pub mod Agent
pub mod Calls
pub mod Adopted
pub mod Steps
pub mod Once
pub mod Ends
pub mod Reported
pub mod Minded
pub mod Released
pub mod Sound
mod Samples
