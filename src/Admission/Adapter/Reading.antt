-- ===== src/Admission/Adapter/Reading.antt =====
-- govengine/admission.py: what `JsonlAuditLedgerAdapter.read` makes of the lines of a file.
use gov_engine.Prelude.{
  ℕ, suc, ◌-◌, ◌≤◌, String, Bool, true, false, List, none, some, Option, [], ◌∷◌, ◌==◌, ◌≡◌, inl,
  inr, if◌then◌else◌, length, leb, Bool-cases, ap, sym, ◌∙◌, All, arith,
}
use gov_engine.Python.Number.{pos}
use gov_engine.Python.Text.{strip}
use gov_engine.Python.Text.Stripping.{strip_idem}
use gov_engine.Python.Value.{Value, int, get_or_null, or_value, Runtime}
use gov_engine.Errors.{Result, ok, require_mapping, ◌>>=◌, >>=-eq-ok, ok-injective}
use gov_engine.Governance.Scope.{RecordDigest}
use gov_engine.Admission.{admission_metadata}
use gov_engine.Admission.Ledger.{
  AuditLedgerEntry, EntryInput, read_record, int_of, make_entry, entry_from_mapping,
  validate_audit_ledger_entry,
}
use gov_engine.Admission.Adapter.{JsonText, add_last, read_lines, read_line, parsed_entry}
use gov_engine.Admission.Adapter.Chain.{validate_audit_ledger_entry-eq-ok}
use gov_engine.Admission.Adapter.Storing.{make_entry-Kept}

abbrev pub Stripped : AuditLedgerEntry → Type 0
Stripped e = strip e.entry_digest ≡ e.entry_digest

module _ (py : Runtime) (digests : RecordDigest) where
  made-Stripped :
      (input : EntryInput) {e : AuditLedgerEntry} → make_entry py digests input ≡ ok e → Stripped e
  made-Stripped input {e} h =
      let kept = make_entry-Kept py digests input h in
      ap strip kept.digest ∙ strip_idem input.entry_digest ∙ sym kept.digest

  module _ (json : JsonText) where
    read_entry-Stripped :
        (raw : Value) {e : AuditLedgerEntry}
        → entry_from_mapping py digests json.parse_int raw ≡ ok e
        → Stripped e
    unfolding entry_from_mapping
    read_entry-Stripped raw h =
        let (m, mapping_read, h₁) =
          >>=-eq-ok (require_mapping raw "invalid_audit_ledger_entry") _ h in
        let (item, item_read, h₂) = >>=-eq-ok (read_record py digests m) _ h₁ in
        let (number, number_read, h₃) =
          >>=-eq-ok (int_of json.parse_int (or_value (get_or_null "sequence" m) (int (pos 0)))) _
            h₂ in
        let (metadata, copied, h₄) =
          >>=-eq-ok (admission_metadata py (get_or_null "metadata" m)) _ h₃ in
        made-Stripped _ h₄

    parsed_entry-Stripped :
        (number : ℕ) (parsed : Option Value) {e : AuditLedgerEntry}
        → parsed_entry py digests json number parsed ≡ ok e
        → Stripped e
    parsed_entry-Stripped number none h = cc
    parsed_entry-Stripped number (some raw) h =
        let (entry, found, h₁) =
          >>=-eq-ok (entry_from_mapping py digests json.parse_int raw)
            (validate_audit_ledger_entry py digests) h in
        let same = validate_audit_ledger_entry-eq-ok py digests entry h₁ in
        let clean = read_entry-Stripped raw found in rw (same) clean

    read_line-Stripped :
        (number : ℕ) (line : String) {e : AuditLedgerEntry}
        → read_line py digests json number line ≡ ok e
        → Stripped e
    unfolding read_line
    read_line-Stripped number line h = parsed_entry-Stripped number (json.loads line) h

    -- Entries that are read with room for so many of them.
    abbrev pub Room : ℕ → List AuditLedgerEntry → Type 0
    Room room es = All Stripped es × (length es ≤ room)

    taken-Room :
        (entry : AuditLedgerEntry) (room : ℕ) (rest : Result (List AuditLedgerEntry))
        {es : List AuditLedgerEntry}
        → 1 ≤ room
        → Stripped entry
        → ((later : List AuditLedgerEntry) → 1 ≤ room - 1 → rest ≡ ok later → Room (room - 1) later)
        → (if leb room 1 then ok (entry ∷ []) else (rest >>= λ later. ok (entry ∷ later))) ≡ ok es
        → Room room es
    taken-Room entry room rest some_room clean follow h = elim (Bool-cases (leb room 1)) [
      | inl last ↦ rw (sym (ok-injective (rw (last) at h))) ((clean, tt), some_room)
      | inr more ↦
          let (later, found, h₁) = >>=-eq-ok rest (λ later. ok (entry ∷ later)) (rw (more) at h) in
          let (all_clean, count) = follow later (ground arith) found in
          rw (sym (ok-injective h₁)) ((clean, all_clean), ground arith)
    ]

    pub read_lines-Room :
        (after : String) (lines : List String) (number : ℕ) (seen : Bool) (room : ℕ)
        {es : List AuditLedgerEntry}
        → 1 ≤ room
        → read_lines py digests json after lines number seen room ≡ ok es
        → Room room es
    unfolding read_lines
    read_lines-Room after [] number seen room some_room h =
        rw (sym (ok-injective h)) (tt, omega arith)
    read_lines-Room after (line ∷ lines) number true room some_room h =
        elim (Bool-cases (strip line == "")) [
          | inl blank ↦
              read_lines-Room after lines (suc number) true room some_room (rw (blank) at h)
          | inr full ↦
              let (entry, found, h₁) =
                >>=-eq-ok (read_line py digests json number (strip line)) _ (rw (full) at h) in
              taken-Room entry room
                (read_lines py digests json after lines (suc number) true (room - 1)) some_room
                (read_line-Stripped number (strip line) found)
                (λ later fits e. read_lines-Room after lines (suc number) true (room - 1) fits e) h₁
        ]
    read_lines-Room after (line ∷ lines) number false room some_room h =
        elim (Bool-cases (strip line == "")) [
          | inl blank ↦
              read_lines-Room after lines (suc number) false room some_room (rw (blank) at h)
          | inr full ↦
              let (entry, found, h₁) =
                >>=-eq-ok (read_line py digests json number (strip line)) _ (rw (full) at h) in
              read_lines-Room after lines (suc number) (entry.entry_id == after) room some_room h₁
        ]

    taken-full :
        (entry : AuditLedgerEntry) (room : ℕ) (rest rest' : Result (List AuditLedgerEntry))
        {es : List AuditLedgerEntry}
        → 1 ≤ room
        → length es ≡ room
        → ((later : List AuditLedgerEntry)
            → 1 ≤ room - 1
            → length later ≡ room - 1
            → rest ≡ ok later
            → rest' ≡ ok later)
        → (if leb room 1 then ok (entry ∷ []) else (rest >>= λ later. ok (entry ∷ later))) ≡ ok es
        → (if leb room 1 then ok (entry ∷ []) else (rest' >>= λ later. ok (entry ∷ later))) ≡ ok es
    taken-full entry room rest rest' some_room count follow h = elim (Bool-cases (leb room 1)) [
      | inl last ↦ rw (last) (rw (last) at h)
      | inr more ↦
          let (later, found, h₁) = >>=-eq-ok rest (λ later. ok (entry ∷ later)) (rw (more) at h) in
          let counted = ap length (ok-injective h₁) ∙ count in
          rw (more, follow later (ground arith) (omega arith) found) h₁
    ]

    -- Where there is no room left, a further line is not read.
    pub read_lines-full :
        (after : String) (lines : List String) (line : String) (number : ℕ) (seen : Bool) (room : ℕ)
        {es : List AuditLedgerEntry}
        → 1 ≤ room
        → length es ≡ room
        → read_lines py digests json after lines number seen room ≡ ok es
        → read_lines py digests json after (add_last lines line) number seen room ≡ ok es
    unfolding read_lines
    read_lines-full after [] line number seen room some_room count h =
        let none_read = ap length (ok-injective h) ∙ count in absurd (omega arith)
    read_lines-full after (l ∷ lines) line number true room some_room count h =
        elim (Bool-cases (strip l == "")) [
          | inl blank ↦ rw (blank) (
              read_lines-full after lines line (suc number) true room some_room count
                (rw (blank) at h))
          | inr full ↦
              let (entry, found, h₁) =
                >>=-eq-ok (read_line py digests json number (strip l)) _ (rw (full) at h) in
              rw (full, found)
                (taken-full entry room
                  (read_lines py digests json after lines (suc number) true (room - 1))
                  (read_lines py digests json after (add_last lines line) (suc number) true
                    (room - 1))
                  some_room count
                  (λ later fits counted e.
                    read_lines-full after lines line (suc number) true (room - 1) fits counted e)
                  h₁)
        ]
    read_lines-full after (l ∷ lines) line number false room some_room count h =
        elim (Bool-cases (strip l == "")) [
          | inl blank ↦ rw (blank) (
              read_lines-full after lines line (suc number) false room some_room count
                (rw (blank) at h))
          | inr full ↦
              let (entry, found, h₁) =
                >>=-eq-ok (read_line py digests json number (strip l)) _ (rw (full) at h) in
              rw (full, found)
                (read_lines-full after lines line (suc number) (entry.entry_id == after) room
                  some_room count h₁)
        ]
