-- ===== src/Replay/Claims.antt =====
-- govengine/replay.py: lemmas on sequences of claims at an `InMemoryReplayClaimStore`.
use gov_engine.Prelude.{
  Bool, true, false, ◌||◌, ◌≡◌, refl, ◌∙◌, ap, ◌⊎◌, inl, inr, List, [], ◌∷◌, ◌++◌, any, Bool-cases,
  arith, eq_iff, In, All, In-append_left,
}
use gov_engine.Replay.{GuardReplayRecord, is_allowed, claim_once, claim_all}
use gov_engine.Replay.Freshness.{is_replay, is_replay_refl, evaluate_guard_replay-Ruled}

or_left : (a b : Bool) → a ≡ true → (a || b) ≡ true
or_left a b h = ground arith

or_right : (a b : Bool) → b ≡ true → (a || b) ≡ true
or_right a b h = ground arith

or_false : (a b : Bool) → (a || b) ≡ false → (a ≡ false) × (b ≡ false)
or_false a b h = (ground arith, ground arith)

pub any_of_In :
    (r p : GuardReplayRecord) (ps : List GuardReplayRecord)
    → In p ps
    → is_replay r p ≡ true
    → any (is_replay r) ps ≡ true
any_of_In r p [] h e = elim h [ ]
any_of_In r p (q ∷ ps) h e = elim h [
  | inl same ↦ or_left _ _ (ap (is_replay r) same ∙ e)
  | inr later ↦ or_right (is_replay r q) _ (any_of_In r p ps later e)
]

pub In-append_last : (p : GuardReplayRecord) (ps : List GuardReplayRecord) → In p (ps ++ (p ∷ []))
In-append_last p [] = inl refl
In-append_last p (q ∷ ps) = inr (In-append_last p ps)

-- What a claim does to the records, by whether the record replays one of them.
claim_once-cases :
    (records : List GuardReplayRecord) (r : GuardReplayRecord) (fresh : Bool)
    → ((any (is_replay r) records ≡ true) × ((claim_once records r fresh).1 ≡ records))
      ⊎ ((any (is_replay r) records ≡ false)
          × ((claim_once records r fresh).1 ≡ records ++ (r ∷ [])))
unfolding claim_once
claim_once-cases records r fresh =
    let ruled = evaluate_guard_replay-Ruled r records fresh in
    elim (Bool-cases (any (is_replay r) records)) [
      | inl found ↦ inl (found, rw (ruled.status, found) refl)
      | inr new ↦ inr (new, rw (ruled.status, new) refl)
    ]

claim_once_keeps :
    (p : GuardReplayRecord) (records : List GuardReplayRecord) (r : GuardReplayRecord)
    (fresh : Bool)
    → In p records
    → In p (claim_once records r fresh).1
claim_once_keeps p records r fresh h = elim (claim_once-cases records r fresh) [
  | inl (_, same) ↦ rw same h
  | inr (_, more) ↦ rw more (In-append_left p records _ h)
]

claim_all_keeps :
    (p : GuardReplayRecord) (claims : List (GuardReplayRecord × Bool))
    (records : List GuardReplayRecord)
    → In p records
    → In p (claim_all records claims)
unfolding claim_all
claim_all_keeps p [] records h = h
claim_all_keeps p ((r, fresh) ∷ claims) records h =
    claim_all_keeps p claims (claim_once records r fresh).1 (claim_once_keeps p records r fresh h)

-- The decision of a claim, where a record that it replays is in the store.
refused :
    (records : List GuardReplayRecord) (r p : GuardReplayRecord)
    → In p records
    → is_replay r p ≡ true
    → is_allowed (claim_once records r true).0 ≡ false
unfolding claim_once
refused records r p h e =
    (evaluate_guard_replay-Ruled r records true).allowed ∙ rw (any_of_In r p records h e) refl

In_of_any :
    (r : GuardReplayRecord) (ps : List GuardReplayRecord)
    → any (is_replay r) ps ≡ true
    → (p : GuardReplayRecord) × In p ps × (is_replay r p ≡ true)
In_of_any r [] e = cc
In_of_any r (q ∷ ps) e = elim (Bool-cases (is_replay r q)) [
  | inl here ↦ (q, inl refl, here)
  | inr other ↦ let (p, at, h) = In_of_any r ps (rw other at e) in (p, inr at, h)
]

stored :
    (records : List GuardReplayRecord) (r : GuardReplayRecord) (fresh : Bool)
    → (claim_once records r fresh).0.replay_status ≡ "fresh"
    → In r (claim_once records r fresh).1
unfolding claim_once
stored records r fresh e = rw ((eq_iff _ "fresh").1 e) (In-append_last r records)

-- Once a record was claimed fresh, a later claim that requires freshness of a record that replays it
-- is refused, whatever was claimed in between.
pub replay_refused :
    (records : List GuardReplayRecord) (r later : GuardReplayRecord) (fresh : Bool)
    (between : List (GuardReplayRecord × Bool))
    → (claim_once records r fresh).0.replay_status ≡ "fresh"
    → is_replay later r ≡ true
    → is_allowed (claim_once (claim_all (claim_once records r fresh).1 between) later true).0
      ≡ false
replay_refused records r later fresh between was e =
    refused _ later r (claim_all_keeps r between _ (stored records r fresh was)) e

-- A record that was claimed once is refused from then on where freshness is required, whether its
-- first claim was fresh or not, and whatever was claimed in between.
pub claimed_at_most_once :
    (records : List GuardReplayRecord) (r : GuardReplayRecord) (fresh : Bool)
    (between : List (GuardReplayRecord × Bool))
    → is_allowed (claim_once (claim_all (claim_once records r fresh).1 between) r true).0 ≡ false
claimed_at_most_once records r fresh between = elim (claim_once-cases records r fresh) [
  | inl (found, same) ↦
      let (p, at, e) = In_of_any r records found in
      refused _ r p (claim_all_keeps p between _ (rw same at)) e
  | inr (_, more) ↦
      refused _ r r (claim_all_keeps r between _ (rw more (In-append_last r records)))
        (is_replay_refl r)
]

-- No record of a store replays an earlier one.
abbrev pub NoReplays : List GuardReplayRecord → Type 0
NoReplays [] = Unit
NoReplays (p ∷ ps) = All (λ q. is_replay q p ≡ false) ps × NoReplays ps

All-append :
    (r p : GuardReplayRecord) (ps : List GuardReplayRecord)
    → is_replay r p ≡ false
    → All (λ q. is_replay q p ≡ false) ps
    → All (λ q. is_replay q p ≡ false) (ps ++ (r ∷ []))
All-append r p [] e h = (e, tt)
All-append r p (q ∷ ps) e h = (h.0, All-append r p ps e h.1)

append-NoReplays :
    (r : GuardReplayRecord) (ps : List GuardReplayRecord)
    → any (is_replay r) ps ≡ false
    → NoReplays ps
    → NoReplays (ps ++ (r ∷ []))
append-NoReplays r [] e h = (tt, tt)
append-NoReplays r (p ∷ ps) e h =
    let (here, rest) = or_false (is_replay r p) _ e in
    (All-append r p ps here h.0, append-NoReplays r ps rest h.1)

-- Claims never bring a replay into a store.
pub claim_all-NoReplays :
    (claims : List (GuardReplayRecord × Bool)) (records : List GuardReplayRecord)
    → NoReplays records
    → NoReplays (claim_all records claims)
unfolding claim_all
claim_all-NoReplays [] records h = h
claim_all-NoReplays ((r, fresh) ∷ claims) records h =
    claim_all-NoReplays claims _ (elim (claim_once-cases records r fresh) [
      | inl (_, same) ↦ rw same h
      | inr (new, more) ↦ rw more (append-NoReplays r records new h)
    ])
