-- ===== src/Tests.antt =====
-- Concrete inputs, and each result at an input that meets its conditions.
mod Encoding
mod Fixtures
mod Running
mod KernelExamples
mod TsvExamples
mod ChainExamples
mod ResilienceExamples
mod ChallengerExamples
mod TurnExamples
mod ValidationExamples
mod ConstitutionExamples
mod ReplayExamples
mod ConsensusExamples
mod SignalExamples
