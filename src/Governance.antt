-- ===== src/Governance.antt =====
-- src/ecosphere/governance.
pub mod Proof
pub mod Receipt
pub mod Constitution
pub mod Checks
pub mod Metrics
pub mod Adversarial
