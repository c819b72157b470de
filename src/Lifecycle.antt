-- ===== src/Lifecycle.antt =====
-- core/lifecycle: the state machine of an agent and the controller that drives it.
pub mod States
pub mod Wait
pub mod Controller
mod Samples
