-- ===== src/Consensus/Context.antt =====
-- src/ecosphere/consensus/verification/types.py: who asks, as the verifiers of credentials say it. The
-- fields `expires_ts`, `credential_hash` and `extra`, which the consensus does not read, are left out.
use beaconwise_tek.Base.{ℕ, Bool, true, false, not, ◌&&◌, Option, none, leb, ◌==◌, Text, codes}

pub data Role : Type 0 where
  public assistant nurse physician specialist attorney advisor engineer : Role

unfoldable pub role_text : Role → Text
role_text public = codes "public"
role_text assistant = codes "assistant"
role_text nurse = codes "nurse"
role_text physician = codes "physician"
role_text specialist = codes "specialist"
role_text attorney = codes "attorney"
role_text advisor = codes "advisor"
role_text engineer = codes "engineer"

pub record VerificationContext : Type 0 where
  pub verified : Bool
  pub role : Role
  pub role_level : ℕ
  pub scope : Option Text

-- The bounds that the model puts on `role_level`
unfoldable pub level_ok : ℕ → Bool
level_ok n = leb 1 n && leb n 5

unfoldable pub is_public_role : Role → Bool
is_public_role public = true
is_public_role _ = false

unfoldable pub is_public : VerificationContext → Bool
unfolding is_public_role
is_public v = not v.verified && (is_public_role v.role && v.role_level == 1)

unfoldable pub is_verified_pro : VerificationContext → Bool
is_verified_pro v = v.verified && leb 3 v.role_level

unfoldable pub requires_full_detail : VerificationContext → Bool
requires_full_detail v = v.verified && leb 3 v.role_level

unfoldable pub public_context : VerificationContext
public_context = record { verified = false; role = public; role_level = 1; scope = none }
