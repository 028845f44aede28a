-- ===== src/Run.antt =====
-- govengine/state_machine.py: the states of a run, the table of transitions, and the two records with
-- their `from_mapping` methods.
pub mod Transition
pub mod Stages
mod Tests
use Prim.Native.String.{◌++◌}
use gov_engine.Prelude.{
  String, Bool, true, false, not, ◌&&◌, ◌||◌, List, [], ◌∷◌, ◌==◌, if◌then◌else◌, is_empty, any,
}
use gov_engine.Python.Text.{strip, in_texts}
use gov_engine.Python.Value.{
  Key, key_text, Value, str, list, tuple, dict, Items, nil, cons, Fields, end, field, get_or_null,
  or_value, Runtime, text_of,
}
use gov_engine.Python.Reading.{read_text, read_text_alias}
use gov_engine.Errors.{Result, ok, fail, fail_with, reject_if, require_mapping, ◌>>=◌, ◌>>◌}
use gov_engine.Governance.Keys.{find_bounded_governance_key}

abbrev pub run_states : List String
run_states =
    "new" ∷ "admitted" ∷ "policy_checked" ∷ "trust_checked" ∷ "gated" ∷ "running_dry_run"
    ∷ "receipt_recorded" ∷ "paused" ∷ "blocked" ∷ "completed" ∷ []

abbrev pub allowed_transitions : List (String × List String)
allowed_transitions =
    ("new", "admitted" ∷ "blocked" ∷ [])
    ∷ ("admitted", "policy_checked" ∷ "blocked" ∷ [])
    ∷ ("policy_checked", "trust_checked" ∷ "blocked" ∷ [])
    ∷ ("trust_checked", "gated" ∷ "blocked" ∷ [])
    ∷ ("gated", "running_dry_run" ∷ "paused" ∷ "blocked" ∷ [])
    ∷ ("running_dry_run", "receipt_recorded" ∷ "paused" ∷ "blocked" ∷ [])
    ∷ ("receipt_recorded", "completed" ∷ "blocked" ∷ [])
    ∷ ("paused", "gated" ∷ "blocked" ∷ [])
    ∷ ("blocked", "admitted" ∷ [])
    ∷ ("completed", [])
    ∷ []

-- The entry of a state in a table, which every run state has in `allowed_transitions`.
abbrev pub targets : List (String × List String) → String → List String
targets [] s = []
targets ((a, bs) ∷ table) s = if s == a then bs else targets table s

abbrev pub forbidden_state_metadata_keys : List String
forbidden_state_metadata_keys =
    "raw_intent" ∷ "prompt" ∷ "credential" ∷ "credentials" ∷ "secret" ∷ "token" ∷ "password"
    ∷ "api_key" ∷ "runtime_storage" ∷ "storage_path" ∷ "queue" ∷ "scheduler" ∷ "schedule"
    ∷ "live_execution" ∷ "live_backend" ∷ "command" ∷ "subprocess" ∷ "shell" ∷ []

pub record GovRunState : Type 0 where
  pub run_id : String
  pub state : String
  pub profile : String
  pub event_refs : List String
  pub artifact_refs : List String
  pub blockers : List String
  pub metadata : Fields

-- `GovRunState.terminal` and `GovRunState.blocked`
abbrev pub is_terminal : GovRunState → Bool
is_terminal s = s.state == "completed"

abbrev pub is_blocked : GovRunState → Bool
is_blocked s = s.state == "blocked" || not (is_empty s.blockers)

pub record StateTransition : Type 0 where
  pub run_id : String
  pub from_state : String
  pub to_state : String
  pub reason_code : String
  pub event_ref : String
  pub required_decisions : List String
  pub metadata : Fields

-- `raw.get('metadata') if isinstance(raw.get('metadata'), Mapping) else {}`
abbrev pub metadata_of : Fields → Fields
metadata_of raw = elim (get_or_null "metadata" raw) [ dict m ↦ m | _ ↦ end ]

module _ (py : Runtime) where
  abbrev pub texts_of : Items → List String
  texts_of nil = []
  texts_of (cons v vs) = text_of py v ∷ texts_of vs

  abbrev pub keys_of : Fields → List String
  keys_of end = []
  keys_of (field k v m) = key_text k ∷ keys_of m

  -- `_tuple`, of a text, a list, a tuple, a mapping or a value that cannot be iterated
  unfoldable pub tuple_of : Value → Result (List String)
  tuple_of (str s) = ok (s ∷ [])
  tuple_of (list vs) = ok (texts_of vs)
  tuple_of (tuple vs) = ok (texts_of vs)
  tuple_of (dict m) = ok (keys_of m)
  tuple_of _ = fail "invalid_state_sequence"

  -- `_tuple(raw.get(key) or ())`
  abbrev pub read_tuple : String → Fields → Result (List String)
  read_tuple key raw = tuple_of (or_value (get_or_null key raw) (tuple nil))

  -- `str(raw.get(key) or default)`
  abbrev pub read_or : String → String → Fields → String
  read_or key default raw = text_of py (or_value (get_or_null key raw) (str default))

  -- `_reject_forbidden_metadata`
  unfoldable pub reject_forbidden_metadata : Fields → Result (Unit {0})
  reject_forbidden_metadata value = do
    reason ← find_bounded_governance_key py forbidden_state_metadata_keys (dict value)
    if reason == "" then ok tt else fail_with "forbidden_state_metadata" reason

  -- `GovRunState.from_mapping`
  unfoldable pub run_state_from_mapping : Value → Result GovRunState
  run_state_from_mapping value = do
    raw ← require_mapping value "invalid_run_state"
    let run_id = read_text_alias py "run_id" "id" raw
    reject_if (run_id == "") "missing_run_id"
    let state = read_or "state" "new" raw
    if in_texts state run_states then ok tt else fail_with "unknown_run_state" state
    reject_forbidden_metadata (metadata_of raw)
    event_refs ← read_tuple "event_refs" raw
    artifact_refs ← read_tuple "artifact_refs" raw
    blockers ← read_tuple "blockers" raw
    ok (record {
      run_id = run_id;
      state = state;
      profile = read_or "profile" "generic" raw;
      event_refs = event_refs;
      artifact_refs = artifact_refs;
      blockers = blockers;
      metadata = metadata_of raw;
    })
