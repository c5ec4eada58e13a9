-- ===== src/Kernel/Host.antt =====
-- What the kernel takes from outside: floats, JSON printing and digests, and the settings of
-- src/ecosphere/config.py, which come from the environment.
use beaconwise_tek.Base.{ℕ, Bool, true, [], Text}
use beaconwise_tek.Float.{Floats}
use beaconwise_tek.Stable.{Crypto}

pub record Settings : Type 0 where
  pub tokenlen_fast : ℕ
  pub tokenlen_standard : ℕ
  pub tokenlen_high : ℕ
  -- `PERSIST_EPACKS`
  pub persist_epacks : Bool
  -- `REDACT_MODE` is not "off"
  pub redact : Bool
  -- `EPACK_SIGNING_KEY`
  pub signing_key : Text
  pub require_evidence_citations : Bool

abbrev pub default_settings : Settings
default_settings = record {
  tokenlen_fast = 4;
  tokenlen_standard = 4;
  tokenlen_high = 6;
  persist_epacks = true;
  redact = true;
  signing_key = [];
  require_evidence_citations = true;
}

pub record Host : Type 1 where
  pub floats : Floats
  pub crypto : Crypto
  pub settings : Settings
  -- `ALIGN_FAST`, `ALIGN_STANDARD` and `ALIGN_HIGH`
  pub align_fast : floats.F
  pub align_standard : floats.F
  pub align_high : floats.F
