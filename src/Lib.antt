-- ===== src/Lib.antt =====
-- GovEngine: a governance kernel that decides, before anything runs, whether a proposed action may.
-- A caller's mapping is bounded and parsed; a policy engine matches it against a compiled pack and
-- returns a verdict; an enforcement step turns the verdict's obligations and constraints into runtime
-- controls; a scope policy judges the destination; a run moves through a fixed table of states; and
-- replay claims keep a guarded root from being used twice. Before a runtime consumes a bundle, an
-- admission composes the summaries of these gates, and an audit ledger chains what was decided.
--
-- The parts, by file, with the code that each one models (paths from the repository's root):
--
-- - Prelude, Prelude/Tests, Prelude/Lists: names and lemmas that every file shares.
-- - Python: the Python values that the code reads. Value has the JSON values, tuples, keys that are no
--   texts and objects of other types; Number has integers and floats (a float is NaN, an infinity or a
--   multiple of 2^-1074); Text and Sorting have the operations on `str`, sets and `sorted`; Reading has
--   the readings that the `from_mapping` methods share.
-- - Errors: govengine/api.py. A function that may raise returns a `Result`; `GovApiError` carries its
--   reason code and context, and `raised` is any other exception.
-- - JsonBoundary: `bounded_json_copy` of govengine/_json_boundary.py. Shape describes the accepted
--   values independently, and Laws and Copies hold the theorems.
-- - Policy/Model, Policy/Model/Parse, Policy/Forbidden: govengine/policy/model, with the records, their
--   `from_mapping` and `as_dict`, the validators and the search for forbidden metadata keys.
-- - Policy/Rule, Policy/Compiler: govengine/policy/compiler. Grammar has the texts that a pack may hold
--   (and the reason codes of govengine/policy/reasons.py), Conditions and Rules the parsing of a rule,
--   Sorting Python's `sorted`, and Pack `PolicyCompiler.compile` before the pack's seal.
-- - Policy/Equality, Policy/Condition, Policy/Engine: govengine/policy/runtime. `evaluate_snapshot` is
--   `PolicyEngine.evaluate` once the pack's integrity was checked. Engine/Precedence describes which
--   rules apply and which one decides; Engine/Decisions and Engine/Guarantees hold the theorems.
-- - Policy/Enforcement: `project_runtime_controls` of govengine/policy/enforcement.py. A branch of its
--   loops is an `Effect`, what it takes from the item, and `apply_effect`, what it does to the loop's
--   variables. Policy/Enforcement/Plan: `admit_policy_execution` of the same file, as `admit_snapshot`
--   once the pack's integrity was checked.
-- - Governance/Validation, Governance/Keys: govengine/_governance_validation.py. The traversal's stack
--   is a list with its top first, and the count of nodes that may still be popped is the recursion's
--   argument: the code's own limit ends the loop, and no fuel is added.
-- - Governance/Scope, Scope/Request, Scope/Decision: govengine/scope_policy.py.
-- - Run, Run/Transition, Run/Stages: govengine/state_machine.py. `apply_all` is a run of transitions.
-- - Replay, Replay/Freshness, Replay/Claims, Replay/Loading, Replay/Stored: govengine/replay.py. The
--   in-memory store is the list of its records, and a host's store is the value that it holds under
--   the key. What a record keeps when it is read back is in Loading.
-- - Core, Core/Gate: the decisions of govengine/core.py and `ExecutionGate` of
--   govengine/execution/gate.py.
-- - Deconfliction: `ConflictDetector` of govengine/deconfliction.py, over the artifact states of Core.
-- - Admission: govengine/admission.py. Records, Audit, Ledger, Outcomes and RuntimeResult have its
--   records with their validators, Verdicts the projection of a policy verdict, and Adapter the JSONL
--   ledger over a file that is a list of lines: `append` returns its result and the file afterwards,
--   and `read` counts down the entries for which the limit leaves room. Adapter/Verification is
--   `verify`, and Adapter/Chain says independently what a chain of entries is. Blockers, Signals and
--   References read bounded summaries, Composition is `compose_runtime_admission_result` in the order of
--   its statements, and Proof has the checks of an admission's proof inputs.
-- - Samples and the Tests modules: concrete data, runs on it and the theorems at it.
--
-- Parameters: `Runtime` stands for Python's case mappings, `str` of values that are no texts and
-- `float` of an integer; `RecordDigest` stands for `govengine_record_digest`, which hashes canonical
-- JSON with the standard library; `JsonText` stands for `json.loads`, `json.dumps` and `int` of a value
-- that is no integer; an argument `as_dict` stands for the method of an object that a host passes;
-- `Timestamps` stands for `datetime.fromisoformat` and `isoformat` in UTC; and `admit_snapshot` takes
-- the digests of a pack and of a verdict likewise. Fields of dataclasses have the types that are
-- declared for them.
-- Every loop is structural recursion, so no bound or fuel is chosen.
--
-- Not modelled: bytes, sets and other containers as values; the integrity seal of a compiled
-- pack; stored enforcement plans; governance decisions and typed execution governance,
-- approvals, signing, the execution of requests and its receipts, the command lines and file I/O. They
-- are left out for their size, not since they could not be stated, except for signing and file I/O,
-- which are calls of libraries.
mod Prelude
pub mod Python
pub mod Deconfliction
pub mod Errors
pub mod JsonBoundary
mod Samples
pub mod Policy
pub mod Governance
pub mod Run
pub mod Replay
pub mod Admission
pub mod Core
