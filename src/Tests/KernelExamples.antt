-- ===== src/Tests/KernelExamples.antt =====
-- The gates at sessions that wait for a confirmation.
use beaconwise_tek.Base.{◌≡◌, refl, true, false, codes}
use beaconwise_tek.Kernel.Session.{
  Profile, a_fast, a_standard, a_high_assurance, reflect_confirm, scaffold_approve,
}
use beaconwise_tek.Kernel.Gates.{timeout, revision, token_missing}
use beaconwise_tek.Kernel.Gates.Pending.{Session, set_pending_gate}
use beaconwise_tek.Kernel.Gates.Handle.{handle_pending_gate}
use beaconwise_tek.Kernel.Gates.Consent.{Consents, is_cleared, cleared-Consents}
use beaconwise_tek.Kernel.Gates.Nonces.{accepted_once}
use beaconwise_tek.Kernel.Gates.Effect.{Implements, handle-Implements}
use beaconwise_tek.Kernel.Gates.Binding.{IsBound, handle-IsBound, set_pending_gate-IsBound}
use beaconwise_tek.Tests.Running.{gates}
use beaconwise_tek.Tests.Fixtures.{toy_host, fresh_session, waiting, toy_payload}

-- A session that waits for an approval.
abbrev planning : Profile → Session toy_host
planning p = set_pending_gate toy_host scaffold_approve toy_payload (fresh_session p)

yes_is_accepted :
    is_cleared (handle_pending_gate toy_host (waiting a_standard) (codes "yes")).meta ≡ true
unfolding gates
yes_is_accepted = refl

-- Under high assurance an assent without the token is not enough.
yes_lacks_token :
    (handle_pending_gate toy_host (waiting a_high_assurance) (codes "Yes, that works")).meta
    ≡ token_missing
unfolding gates
yes_lacks_token = refl

revision_is_kept :
    (handle_pending_gate toy_host (waiting a_standard) (codes "yes, but change step 2")).meta
    ≡ revision
unfolding gates
revision_is_kept = refl

late_is_revoked :
    (handle_pending_gate toy_host
      (record (waiting a_fast) { interaction_count = 3 })
      (codes "yes")).meta
    ≡ timeout
unfolding gates
late_is_revoked = refl

cleared-Consents_example : Consents toy_host (waiting a_standard) (codes "yes")
cleared-Consents_example =
    cleared-Consents toy_host (waiting a_standard) (codes "yes") yes_is_accepted

-- The session after the confirmation, in which someone has put the old gate back.
abbrev replayed : Session toy_host
replayed = record (waiting a_standard) {
  pending_gate = record ((waiting a_standard).pending_gate) {
    consumed_nonces =
        (handle_pending_gate toy_host (waiting a_standard)
          (codes "yes")).session.pending_gate.consumed_nonces;
  };
}

accepted_once_example :
    is_cleared (handle_pending_gate toy_host replayed (codes "confirmed")).meta ≡ false
unfolding gates
accepted_once_example =
    accepted_once toy_host (waiting a_standard) replayed (codes "yes") (codes "confirmed") refl
      yes_is_accepted refl (λ n e. e)

handle-Implements_example :
    Implements toy_host
      (waiting a_standard)
      (handle_pending_gate toy_host (waiting a_standard) (codes "nope"))
handle-Implements_example = handle-Implements toy_host (waiting a_standard) (codes "nope")

waiting-IsBound : IsBound toy_host (waiting a_standard)
waiting-IsBound =
    set_pending_gate-IsBound toy_host reflect_confirm toy_payload (fresh_session a_standard)
      (λ e. cc)

handle-IsBound_example :
    IsBound toy_host
      (handle_pending_gate toy_host (waiting a_standard) (codes "remove step 3")).session
handle-IsBound_example =
    handle-IsBound toy_host (waiting a_standard) (codes "remove step 3") waiting-IsBound
