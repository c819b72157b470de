-- ===== src/Boot.antt =====
-- What PID 1 does first and last: core/supervisor/boot.go, core/mounts/mounts.go and
-- core/shutdown/shutdown.go.
pub mod Phase0
pub mod Mounts
pub mod Shutdown
mod Samples
