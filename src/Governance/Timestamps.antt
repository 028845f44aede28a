-- ===== src/Governance/Timestamps.antt =====
-- govengine/_governance_validation.py: `parse_aware_timestamp`.
use Prim.Native.Char.{code}
use Prim.Native.String.{String, [], ◌∷◌}
use gov_engine.Prelude.{Option, none, some, ◌&&◌, ◌==◌, eqb, if◌then◌else◌}
use gov_engine.Python.Number.{ℤ}
use gov_engine.Python.Text.{strip}
use gov_engine.Python.Value.{Value, str}
use gov_engine.Errors.{Result, ok, fail}

-- What is taken of Python's `datetime`. `from_iso` is `datetime.fromisoformat`, by the instant in
-- microseconds since a fixed one, and `none` where it raises `ValueError` or the text has no offset;
-- `utc_text` writes an instant in UTC with the suffix Z.
pub record Timestamps : Type 0 where
  pub from_iso : String → Option ℤ
  pub utc_text : ℤ → String

-- A final Z becomes an offset.
unfoldable pub with_offset : String → String
with_offset [] = []
with_offset (c ∷ s) =
    let rest = with_offset s in if s == "" && eqb (code c) b'Z' then "+00:00" else c ∷ rest

-- `parse_aware_timestamp`
unfoldable pub parse_aware_timestamp : Timestamps → Value → String → Result ℤ
parse_aware_timestamp clock (str s) reason =
    if strip s == "" then fail reason else elim (clock.from_iso (with_offset (strip s))) [
      | none ↦ fail reason
      | some instant ↦ ok instant
    ]
parse_aware_timestamp clock _ reason = fail reason
