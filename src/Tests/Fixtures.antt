-- ===== src/Tests/Fixtures.antt =====
-- A host over fixed-point numbers, and sessions of it.
use Prim.Native.Nat.{◌/◌}
use native.Mathlib.Nat.{
  le-div_iff_mul-le, div-mul-le_self, mul-le-mul_right, le_of_mul-le-mul_right,
}
use beaconwise_tek.Base.{ℕ, ◌+◌, ◌-◌, ◌*◌, ◌≤◌, ◌<◌, false, [], arith, leb, le→leb, codes}
use beaconwise_tek.Float.{Floats, IsOrdered}
use beaconwise_tek.Json.{Fields, num, end, field}
use beaconwise_tek.Tsv.{TsvState, TsvSkillBeliefs}
use beaconwise_tek.Kernel.Host.{Host, default_settings}
use beaconwise_tek.Kernel.Session.{empty_gate, Profile, reflect_confirm}
use beaconwise_tek.Kernel.Revisions.{decimal}
use beaconwise_tek.Kernel.Gates.Pending.{Session, set_pending_gate}
use beaconwise_tek.Tests.Encoding.{toy_crypto}

-- Numbers in ten-thousandths.
abbrev pub toy_floats : Floats
toy_floats = record {
  F = ℕ;
  lit = λ n d. n * 10000 / d;
  add = λ a b. a + b;
  sub = λ a b. a - b;
  mul = λ a b. a * b / 10000;
  div = λ a b. a * 10000 / b;
  le = leb;
  round = λ x n. x;
  repr = decimal;
}

scaled_le : (n d m e : ℕ) → 0 < d → 0 < e → n * e ≤ m * d → n * 10000 / d ≤ m * 10000 / e
scaled_le n d m e pd pe h =
    let q : ℕ = n * 10000 / d in
    let one : q * d * e ≤ n * 10000 * e = mul-le-mul_right e (div-mul-le_self (n * 10000) d) in
    let two : n * e * 10000 ≤ m * d * 10000 = mul-le-mul_right 10000 h in
    (le-div_iff_mul-le {k = e} {x = q} {y = m * 10000} pe).1
      (le_of_mul-le-mul_right {m = q * e} {n = m * 10000} {k = d} (omega arith) pd)

pub toy_floats-IsOrdered : IsOrdered toy_floats
toy_floats-IsOrdered = record {
  le_refl = λ a. ground arith;
  le_trans = λ a b c p q. ground arith;
  le_total = λ a b p. ground arith;
  lit-le = λ n d m e pd pe h. le→leb (n * 10000 / d) (m * 10000 / e) (scaled_le n d m e pd pe h);
}

abbrev pub toy_host : Host
toy_host = record {
  floats = toy_floats;
  crypto = toy_crypto;
  settings = default_settings;
  align_fast = 8500;
  align_standard = 9000;
  align_high = 9500;
}

abbrev pub toy_beliefs : TsvSkillBeliefs toy_floats
toy_beliefs = record {
  clarity = 8000;
  context = 5000;
  verification = 8000;
  constraints = 8000;
  translation_intent = 5000;
  others = [];
}

abbrev pub toy_tsv : TsvState toy_floats
toy_tsv = record { beliefs = toy_beliefs; evidence_log = []; evidence_window_s = 604800 }

abbrev pub fresh_session : Profile → Session toy_host
fresh_session p = record {
  session_id = codes "s1";
  session_secret = [];
  interaction_count = 1;
  current_profile = p;
  pending_gate = empty_gate;
  traces = [];
  reflect_confirmed = false;
  scaffold_approved = false;
  workflow_queue = [];
  tsv = toy_tsv;
  epack_seq = 0;
  epack_prev_hash = codes "GENESIS";
  epacks = [];
  last_persisted_seq = 0;
  last_failure_interaction = 0;
}

abbrev pub toy_payload : Fields
toy_payload = field (codes "complexity") (num 6) end

-- A session that waits for a confirmation.
abbrev pub waiting : Profile → Session toy_host
waiting p = set_pending_gate toy_host reflect_confirm toy_payload (fresh_session p)
