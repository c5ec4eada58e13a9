-- ===== src/Resilience.antt =====
-- src/ecosphere/meta_validation: how a plan of recovery is selected, damped, kept from selection, and
-- verified.
pub mod Breaker
pub mod Recovery
pub mod Runtime
pub mod Tracker
pub mod Snapshot
pub mod Verifier
