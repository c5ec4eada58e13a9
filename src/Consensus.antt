-- ===== src/Consensus.antt =====
-- src/ecosphere/consensus: a consensus of language models over one question.
pub mod Context
pub mod Ledger
pub mod Scope
pub mod Calls
pub mod Config
pub mod Flow
pub mod TwoStage
