-- ===== src/Kernel/Tdm/Escalation.antt =====
-- When the profile of a session rises and falls.
use beaconwise_tek.Base.{ℕ, ◌+◌, ◌≤◌, ◌<◌, ◌≡◌, ◌⊎◌, Bool, true, List, arith}
use beaconwise_tek.Kernel.Host.{Host}
use beaconwise_tek.Kernel.Session.{Profile}
use beaconwise_tek.Kernel.Session.{a_fast, a_standard, a_high_assurance}
use beaconwise_tek.Kernel.Gates.Pending.{Session, trace}
use beaconwise_tek.Validation.Checked.{ValidationAttempt}
use beaconwise_tek.Kernel.Tdm.{count_fails, escalate_profile}

-- The strictness of a profile.
abbrev pub rank : Profile → ℕ
rank a_fast = 0
rank a_standard = 1
rank a_high_assurance = 2

module _ (h : Host) where
  -- The profile falls only after a turn whose attempts all succeeded, eight or more turns after the
  -- last failure, and then by one step.
  pub escalate_profile-falls :
      (s : Session h) (attempts : List (ValidationAttempt h.floats)) (shift : Bool)
      → rank (escalate_profile h s attempts shift).current_profile < rank s.current_profile
      → (count_fails h attempts ≡ 0)
        × (s.last_failure_interaction + 8 ≤ s.interaction_count)
        × (rank s.current_profile ≡ rank (escalate_profile h s attempts shift).current_profile + 1)
  unfolding escalate_profile trace
  escalate_profile-falls s attempts shift fall = ground arith

  -- The profile rises only after two failed attempts in a turn or a shift of domain, by one step.
  pub escalate_profile-rises :
      (s : Session h) (attempts : List (ValidationAttempt h.floats)) (shift : Bool)
      → rank s.current_profile < rank (escalate_profile h s attempts shift).current_profile
      → ((2 ≤ count_fails h attempts) ⊎ (shift ≡ true))
        × (rank (escalate_profile h s attempts shift).current_profile ≡ rank s.current_profile + 1)
  unfolding escalate_profile trace
  escalate_profile-rises s attempts shift rise = ground arith
