-- ===== src/Version.antt =====
-- core/version/version.go: where the rows of `version` come from, and how they are printed.
--
-- What the linker stamps, what the toolchain records and the package's own path are arguments.
pub mod Resolve
pub mod Summary
pub mod Modules
pub mod Rows
mod Samples
