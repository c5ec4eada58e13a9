-- ===== src/Validation.antt =====
-- src/ecosphere/validation/validators.py: the checks of a generated output.
pub mod Checked
pub mod Citations
pub mod Schema
pub mod Regions
pub mod Attempts
pub mod Accepted
pub mod Delivered
pub mod Crash
