-- ===== src/Replay/Freshness.antt =====
-- govengine/replay.py: what a replay is, and lemmas on `evaluate_guard_replay`.
use gov_engine.Prelude.{
  String, Bool, true, false, not, ◌||◌, ◌≡◌, refl, inl, inr, List, [], ◌∷◌, ◌==◌, any, Bool-cases,
  arith, eq_refl,
}
use gov_engine.Replay.{
  GuardReplayRecord, GuardReplayDecision, is_allowed, is_semantic_replay, is_root_tag_replay,
  seen_decision, evaluate_guard_replay,
}

-- A record replays an earlier one: the same payload under the same ticket or chain and key, or the
-- same root under the same chain and key.
abbrev pub is_replay : GuardReplayRecord → GuardReplayRecord → Bool
is_replay r prior = is_semantic_replay r prior || is_root_tag_replay r prior

or_true : (b : Bool) → (b || true) ≡ true
or_true b = ground arith

pub is_replay_refl : (r : GuardReplayRecord) → is_replay r r ≡ true
unfolding is_root_tag_replay
is_replay_refl r =
    rw (eq_refl r.root_tag, eq_refl r.chain_id, eq_refl r.key_id) (or_true (is_semantic_replay r r))

-- What the evaluation of a record may be, by whether it is a replay.
pub record Ruled (r : GuardReplayRecord) (fresh : Bool) (found : Bool) (d : GuardReplayDecision)
    : Type 0 where
  pub status : (d.replay_status == "fresh") ≡ not found
  pub allowed : is_allowed d ≡ (not found || not fresh)

seen-Ruled :
    (r prior : GuardReplayRecord) (fresh : Bool) (blocker : String)
    → Ruled r fresh true (seen_decision fresh r prior blocker)
unfolding seen_decision is_allowed
seen-Ruled r prior true blocker = record { status = refl; allowed = refl }
seen-Ruled r prior false blocker = record { status = refl; allowed = refl }

-- A record is fresh exactly when it replays no prior record. It is allowed exactly when it is fresh
-- or freshness is not required.
pub evaluate_guard_replay-Ruled :
    (r : GuardReplayRecord) (priors : List GuardReplayRecord) (fresh : Bool)
    → Ruled r fresh (any (is_replay r) priors) (evaluate_guard_replay r priors fresh)
unfolding evaluate_guard_replay is_allowed
evaluate_guard_replay-Ruled r [] fresh = record { status = refl; allowed = refl }
evaluate_guard_replay-Ruled r (p ∷ ps) fresh = elim (Bool-cases (is_semantic_replay r p)) [
  | inl a ↦ rw a (seen-Ruled r p fresh _)
  | inr a ↦ elim (Bool-cases (is_root_tag_replay r p)) [
    | inl b ↦ rw (a, b) (seen-Ruled r p fresh _)
    | inr b ↦ rw (a, b) (evaluate_guard_replay-Ruled r ps fresh)
  ]
]
