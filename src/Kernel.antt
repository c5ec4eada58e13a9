-- ===== src/Kernel.antt =====
-- src/ecosphere/kernel: one governed turn of a session.
pub mod Host
pub mod Session
pub mod Patterns
pub mod Revisions
pub mod Gates
pub mod Seal
pub mod Router
pub mod Tdm
pub mod Tools
pub mod Turn
