-- ===== src/Python/Text/Stripping.antt =====
-- Lemmas on `str.strip`.
use Prim.Native.Char.{code}
use Prim.Native.String.{[], ◌∷◌}
use gov_engine.Prelude.{
  String, Bool, true, false, ◌&&◌, ◌==◌, ◌≡◌, refl, inl, inr, if◌then◌else◌, Bool-cases, ap, ◌∙◌,
  arith,
}
use gov_engine.Python.Text.{is_space, lstrip, rstrip, strip}

-- A text that does not start with a space.
abbrev starts_clean : String → Bool
starts_clean [] = true
starts_clean (c ∷ s) = if is_space (code c) then false else true

solid_of_clean : (space : Bool) → (if space then false else true) ≡ true → space ≡ false
solid_of_clean space h = ground arith

and_false : (a b : Bool) → b ≡ false → (a && b) ≡ false
and_false a b h = ground arith

lstrip-clean : (s : String) → starts_clean (lstrip s) ≡ true
unfolding lstrip
lstrip-clean [] = refl
lstrip-clean (c ∷ s) = elim (Bool-cases (is_space (code c))) [
  | inl space ↦ rw (space) (lstrip-clean s)
  | inr solid ↦ rw (solid, solid) refl
]

rstrip-clean : (s : String) → starts_clean s ≡ true → starts_clean (rstrip s) ≡ true
unfolding rstrip
rstrip-clean [] h = refl
rstrip-clean (c ∷ s) h =
    let solid = solid_of_clean (is_space (code c)) h in
    rw (and_false (rstrip s == "") (is_space (code c)) solid, solid) refl

lstrip_of_clean : (s : String) → starts_clean s ≡ true → lstrip s ≡ s
unfolding lstrip
lstrip_of_clean [] h = refl
lstrip_of_clean (c ∷ s) h = rw (solid_of_clean (is_space (code c)) h) refl

rstrip_idem : (s : String) → rstrip (rstrip s) ≡ rstrip s
unfolding rstrip
rstrip_idem [] = refl
rstrip_idem (c ∷ s) = elim (Bool-cases (rstrip s == "" && is_space (code c))) [
  | inl gone ↦ rw (gone) refl
  | inr kept ↦ rw (kept, rstrip_idem s, kept) refl
]

pub strip_idem : (s : String) → strip (strip s) ≡ strip s
unfolding strip
strip_idem s =
    ap rstrip (lstrip_of_clean (rstrip (lstrip s)) (rstrip-clean (lstrip s) (lstrip-clean s)))
    ∙ rstrip_idem (lstrip s)
