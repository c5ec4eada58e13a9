-- ===== src/Lib.antt =====
-- BeaconWise Transparency Ecosphere Kernel: verification library.
--
-- The program (src/ecosphere) wraps a language model in governance. A session takes texts of a user,
-- one per turn. `handle_turn` (kernel/engine.py) first lets a pending gate of the workflow look at the
-- text (kernel/gates.py: confirm an intent, approve a plan), then routes the turn (kernel/router.py)
-- by what the safety filters, the complexity, the domain and the trust state vector (tsv/state.py) say,
-- or follows the workflow queue; a generated answer goes through validators with retries; and every
-- turn that raises nothing ends in `_seal`, which appends a signed record to a hash chain
-- (epack/chain.py, epack/crypto.py) and writes it, redacted (security/redaction.py), to a file. governance/proof.py verifies such chains.
-- The constitution's checks (governance/constitution.py) and the replay (replay/) judge such chains
-- too. The consensus (consensus/) asks several models and gates their answer by the role of who asks.
-- For resilience, meta_validation selects recovery plans behind circuit breakers.
--
-- Which file models which part (paths below src/ecosphere):
--   Base, Float          shared lists, texts (lists of character codes) and the floats of Python as an
--                        interface `Floats` with, where order matters, the laws `IsOrdered`
--   Json, Stable         utils/stable.py: JSON values, their canonical order of keys, tagged hashes.
--                        json.dumps, hashlib and hmac are the interface `Crypto`; where two hashes must
--                        differ, `IsCollisionFree` says that printing and SHA-256 are injective, and
--                        `IsUnforged` (Governance/Receipt/Signed) says it of HMAC under one key
--   Tsv                  tsv/state.py: evidence, beliefs, the high-stakes condition, the snapshot
--   Epack, Security      epack/chain.py, epack/crypto.py, security/redaction.py
--   Governance/Proof     governance/proof.py: verify_epack_chain, replay_audit_chain
--   Governance/Receipt   governance/proof.py: routing proofs, signed receipts, generate_proof
--   Kernel/Session       kernel/session.py;  Kernel/Revisions: kernel/revisions.py
--   Kernel/Patterns      the regular expressions of kernel/gates.py, as matchers
--   Kernel/Gates         kernel/gates.py: decisions on texts; Gates/Pending: what changes the pending
--                        gate; Gates/Handle: handle_pending_gate branch by branch
--   Kernel/Router        kernel/router.py, kernel/types.py, safety/stage1.py and the input vector
--   Kernel/Tdm           _execute_tdm and _escalate_profile of kernel/engine.py
--   Kernel/Seal          _seal of kernel/engine.py
--   Kernel/Turn          handle_turn of kernel/engine.py; Turn/Reached: any number of turns
--   Validation           validation/validators.py: Checked (outcomes of a check), Citations, Schema,
--                        Regions (protected regions, claims of evidence), Attempts (validate_output),
--                        Accepted, Delivered and Crash on what comes of it. json.loads is in `Python`,
--                        and the TypeError that the file does not catch is the result `none`
--   Governance/Constitution, Governance/Checks
--                        governance/constitution.py: the declared invariants and their checks
--   Replay               replay/engine.py (Engine) and replay/package.py (Package)
--   Consensus            consensus/: Context (verification/types.py), Config (config.py), Ledger
--                        (ledger/), Scope (gates/scope_gate.py), Calls (exceptions, keyword arguments,
--                        str.format, try_parse_json), Flow (run_consensus), TwoStage
--                        (run_two_stage_consensus)
--   Challenger           challenger/config.py, challenger/engine.py: triggers and arbitration
--   Resilience           meta_validation: the circuit breaker, the recovery engine, the damping, the
--                        verifier, and the runtime that joins them;
--                        Resilience/Tracker: tsi_tracker.py, the window of outcomes and its signal;
--                        Resilience/Snapshot: state_snapshot and the reset of the damping
--   Kernel/Tools         kernel/tools.py: the allowlist, the calculator, the searches. The parser and
--                        the numbers of Python and the search engines are the interface `ToolEnv`
--   Governance/Metrics, Governance/Adversarial
--                        governance/metrics.py, governance/adversarial.py
--   Tests                concrete hosts, sessions and chains, on which the definitions run
--
-- Python's mutation of a session is explicit passing of the record `SessionState`; the machine of
-- `_seal` adds the file at EPACK_STORE_PATH as the list of its records. Times, secrets, the build
-- manifest and formatted floats are inputs of a turn. The language model, the tools as the engine calls
-- them, the score of stage 2 and the citation post-processing are the fields of `Services`, which the
-- results leave arbitrary and of which those that `_execute_tdm` calls, but the calculator, may raise.
-- The validators are those of Validation. A turn that raises in `_execute_tdm` has no reply and seals
-- nothing; what it did to the session before stays done. A set is the list of what was added.
-- Characters are codes, and case, space and word boundary are those of ASCII. A file of the consensus
-- ledger is the list of the events that were appended; its readers see the text and its lines. The
-- one fuel is that of the printer of decimal numbers
-- (Kernel/Revisions), which gets one more than the number, and a number has fewer digits than that.
-- The retry loop recurses on the number of rounds that `_max_retries_for_profile` gives.
--
-- Not modelled: the v9 mode of the kernel, which calls the consensus, the compiled policies and the
-- failure disclosures, which are planned; the network clients, the storage drivers, the user interface
-- and the generators of documents, which are input and output.
pub mod Base
pub mod Float
pub mod Json
pub mod Stable
pub mod Tsv
pub mod Kernel
pub mod Epack
pub mod Security
pub mod Governance
pub mod Resilience
pub mod Challenger
pub mod Validation
pub mod Replay
pub mod Consensus
pub mod Tests
